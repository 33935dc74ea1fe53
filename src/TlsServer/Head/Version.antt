-- ===== src/TlsServer/Head/Version.antt =====
-- Which requests `temp` of src/hyper_tls_server.rs takes for requests of HTTP/2.
use rocks.Base.{ℕ, ◌≡◌, ◌↔◌, refl, true, List, [], ◌∷◌, Option, some, arith, ==_iff, ◌⊎◌}
use rocks.Base.Words.{Bytes}
use rocks.TlsServer.Head.{http_2, Header, is_text, is_header, h2c, has_header, http_version}

is_text_iff : (a b : Bytes) → (is_text a b ≡ true) ↔ (a ≡ b)
unfolding is_text
is_text_iff [] [] = (λ h. refl, λ h. refl)
is_text_iff [] (c ∷ cs) = (λ h. cc, λ h. cc)
is_text_iff (b ∷ bs) [] = (λ h. cc, λ h. cc)
is_text_iff (b ∷ bs) (c ∷ cs) = ground (arith, is_text_iff bs cs, ==_iff b c)

is_header_iff : (h i : Header) → (is_header h i ≡ true) ↔ ((h.0 ≡ i.0) × (h.1 ≡ i.1))
is_header_iff (name, value) (n, v) = ground (arith, is_text_iff name n, is_text_iff value v)

-- A header with this name and this value is in the list.
abbrev Among : Header → List Header → Type 0
Among h [] = ⊥
Among h (i ∷ is) = ((h.0 ≡ i.0) × (h.1 ≡ i.1)) ⊎ Among h is

has_header_iff : (h : Header) (is : List Header) → (has_header h is ≡ true) ↔ Among h is
unfolding has_header
has_header_iff h [] = (λ p. cc, λ p. elim p [ ])
has_header_iff h (i ∷ is) = ground (arith, is_header_iff h i, has_header_iff h is)

-- A request is taken for one of HTTP/2 exactly if it came as HTTP/1.1 with the header `Upgrade: h2c`.
http_version-eq-http_2 :
    (v : Option ℕ) (headers : List Header)
    → (http_version v headers ≡ http_2) ↔ ((v ≡ some 1) × Among h2c headers)
http_version-eq-http_2 v headers = ground (arith, has_header_iff h2c headers)
