-- ===== src/Rocks/Service/Answers.antt =====
-- When a request to the hyper server is answered with an error, and with which.
use Prim.Native.String.{String}
use rocks.Base.{
  ℕ, ◌≡◌, ◌≢◌, ◌↔◌, refl, ap, subst, ◌∙◌, Bool, true, false, Option, none, some, List, ne→==_false,
  ◌==◌, arith, if◌then◌else◌, not,
}
use rocks.Error.{Result, err_inj}
use rocks.Rocks.Service.{
  Request, Headers, ServeError, to_str_error, parse_error, length_not_match, Response, not_found,
  hello, form_type, Served, drain, read_length, checked_body, not_found_unless, parse_text,
  header_length, form_length, form_body, handle_rocks, serve_rocks,
}

not_found_unless_err :
    {S P : Type 0} (r : Served S P (Unit {0})) {e : ServeError S P}
    → not_found_unless r ≡ Result.err e
    → r ≡ Result.err e
unfolding not_found_unless
not_found_unless_err (Result.ok u) h = cc
not_found_unless_err (Result.err x) h = cc

not_found_unless_ok :
    {S P : Type 0} (r : Served S P (Unit {0})) {a : Response}
    → not_found_unless r ≡ Result.ok a
    → a ≡ not_found
unfolding not_found_unless
not_found_unless_ok (Result.ok u) h = cc
not_found_unless_ok (Result.err x) h = cc

mismatch_only :
    {D S P : Type 0} (b : Bool) (kept drained : List D) {e : ServeError S P}
    → (if◌then◌else◌ {A = Served S P (Unit {0}) × List D}
        (not b)
        (Result.err length_not_match, kept)
        (Result.ok tt, drained)).0
      ≡ Result.err e
    → (b ≡ false) × (length_not_match ≡ e)
mismatch_only true kept drained h = cc
mismatch_only false kept drained h = (refl, err_inj h)

differ : (n l : ℕ) → (n == l) ≡ false → n ≢ l
differ n l h = ground arith

module _ {W V S P : Type 0} (values : Headers W V S P) where
  -- A request whose headers say that it is a form and give a length.
  pub record IsForm {D : Type 0} (req : Request W V D) : Type 0 where
    pub type_header : V
    pub length_header : V
    pub has_type : req.content_type_header ≡ some type_header
    pub right_type : values.equals type_header form_type ≡ true
    pub has_length : req.content_length_header ≡ some length_header

  -- A header value that is read as a number.
  pub record Reads (v : V) (n : ℕ) : Type 0 where
    pub text : String
    pub is_text : values.to_str v ≡ Result.ok text
    pub is_number : values.parse_u64 text ≡ Result.ok n

  -- A request that is refused with this error.
  abbrev pub Refused : {D : Type 0} → Request W V D → ServeError S P → Type 0
  Refused req (to_str_error s) = (f : IsForm req) × (values.to_str f.length_header ≡ Result.err s)
  Refused req (parse_error p) =
      (f : IsForm req) × (text : String) × (values.to_str f.length_header ≡ Result.ok text)
      × (values.parse_u64 text ≡ Result.err p)
  Refused req length_not_match =
      (f : IsForm req) × (n : ℕ) × (l : ℕ) × Reads f.length_header n
      × (req.content_length ≡ some l)
      × (n ≢ l)

  Unread : V → ServeError S P → Type 0
  Unread v (to_str_error s) = values.to_str v ≡ Result.err s
  Unread v (parse_error p) =
      (text : String) × (values.to_str v ≡ Result.ok text) × (values.parse_u64 text ≡ Result.err p)
  Unread v length_not_match = ⊥

  parse_text-Reads :
      (v : V) (text : String) (r : Result P ℕ)
      → values.to_str v ≡ Result.ok text
      → values.parse_u64 text ≡ r
      → {n : ℕ} → read_length {S = S} r ≡ Result.ok n
      → Reads v n
  unfolding read_length
  parse_text-Reads v text (Result.ok n) ht hp h = record {
    text = text;
    is_text = ht;
    is_number = hp ∙ cc;
  }
  parse_text-Reads v text (Result.err e) ht hp h = cc

  header_length-Reads :
      (v : V) (r : Result S String)
      → values.to_str v ≡ r
      → {n : ℕ} → parse_text values r ≡ Result.ok n
      → Reads v n
  unfolding parse_text
  header_length-Reads v (Result.ok text) ht h = parse_text-Reads v text _ ht refl h
  header_length-Reads v (Result.err e) ht h = cc

  read_length-Unread :
      (v : V) (text : String) (r : Result P ℕ)
      → values.to_str v ≡ Result.ok text
      → values.parse_u64 text ≡ r
      → (e : ServeError S P) → read_length {S = S} r ≡ Result.err e
      → Unread v e
  unfolding read_length Unread
  read_length-Unread v text (Result.ok n) ht hp e h = cc
  read_length-Unread v text (Result.err p) ht hp e h = subst (Unread v) (err_inj h) (text, ht, hp)

  header_length-Unread :
      (v : V) (r : Result S String)
      → values.to_str v ≡ r
      → (e : ServeError S P) → parse_text values r ≡ Result.err e
      → Unread v e
  unfolding parse_text Unread
  header_length-Unread v (Result.ok text) ht e h = read_length-Unread v text _ ht refl e h
  header_length-Unread v (Result.err s) ht e h = subst (Unread v) (err_inj h) ht

  Unread-Refused :
      {D : Type 0} (req : Request W V D) (f : IsForm req) (e : ServeError S P)
      → Unread f.length_header e
      → Refused req e
  unfolding Unread
  Unread-Refused req f (to_str_error s) h = (f, h)
  Unread-Refused req f (parse_error p) (text, ht, hp) = (f, text, ht, hp)
  Unread-Refused req f length_not_match h = elim h [ ]

  checked-Refused :
      {D : Type 0} (req : Request W V D) (f : IsForm req) (len : Served S P ℕ) (claimed : Option ℕ)
      → header_length values f.length_header ≡ len
      → req.content_length ≡ claimed
      → (e : ServeError S P) → (checked_body len claimed req.chunks).0 ≡ Result.err e
      → Refused req e
  unfolding header_length checked_body
  checked-Refused req f (Result.err x) claimed hl hc e h =
      Unread-Refused req f e
        (header_length-Unread f.length_header _ refl e (hl ∙ ap Result.err (err_inj h)))
  checked-Refused req f (Result.ok n) none hl hc e h = cc
  checked-Refused req f (Result.ok n) (some l) hl hc e h =
      let (ne, same) = mismatch_only (n == l) req.chunks (drain req.chunks) h in
      subst (Refused req) same
        (f, n, l, header_length-Reads f.length_header _ refl hl, hc, differ n l ne)

  if_form-Refused :
      {D : Type 0} (req : Request W V D) (t l : V) (b : Bool)
      → req.content_type_header ≡ some t
      → req.content_length_header ≡ some l
      → values.equals t form_type ≡ b
      → (e : ServeError S P)
      → (form_body values (if b then some (header_length values l) else none) req).0 ≡ Result.err e
      → Refused req e
  unfolding form_body
  if_form-Refused req t l true ht hl hb e h =
      let form : IsForm req = record {
        type_header = t;
        length_header = l;
        has_type = ht;
        right_type = hb;
        has_length = hl;
      } in
      checked-Refused req form _ _ refl refl e h
  if_form-Refused req t l false ht hl hb e h = cc

  form-Refused :
      {D : Type 0} (req : Request W V D) (t l : Option V)
      → req.content_type_header ≡ t
      → req.content_length_header ≡ l
      → (e : ServeError S P) → (form_body values (form_length values t l) req).0 ≡ Result.err e
      → Refused req e
  unfolding form_length form_body
  form-Refused req (some t) (some l) ht hl e h = if_form-Refused req t l _ ht hl refl e h
  form-Refused req none _ ht hl e h = cc
  form-Refused req (some t) none ht hl e h = cc

  handle-Refused :
      {D : Type 0} (req : Request W V D) (e : ServeError S P)
      → (handle_rocks values req).0 ≡ Result.err e
      → Refused req e
  unfolding handle_rocks
  handle-Refused req e h = form-Refused req _ _ refl refl e (not_found_unless_err _ h)

  Refused-form :
      {D : Type 0} (req : Request W V D) (e : ServeError S P)
      → Refused req e
      → (form_body values
          (form_length values req.content_type_header req.content_length_header)
          req).0
        ≡ Result.err e
  unfolding form_length form_body checked_body header_length parse_text read_length
  Refused-form req (to_str_error s) (f, h) = rw (f.has_type, f.has_length, f.right_type, h) refl
  Refused-form req (parse_error p) (f, text, h, hp) =
      rw (f.has_type, f.has_length, f.right_type, h, hp) refl
  Refused-form req length_not_match (f, n, l, r, hc, ne) =
      rw (f.has_type, f.has_length, f.right_type, r.is_text, r.is_number, hc, ne→==_false n l ne)
        refl

  handle_rocks_err :
      {D : Type 0} (req : Request W V D) (e : ServeError S P)
      → ((handle_rocks values req).0 ≡ Result.err e) ↔ Refused req e
  unfolding handle_rocks not_found_unless
  handle_rocks_err req e = (handle-Refused req e, λ h. ap not_found_unless (Refused-form req e h))

  handle_rocks_ok :
      {D : Type 0} (req : Request W V D) (r : Response)
      → (handle_rocks values req).0 ≡ Result.ok r
      → r ≡ not_found
  unfolding handle_rocks
  handle_rocks_ok req r h = not_found_unless_ok _ h

  routed :
      {D : Type 0} (req : Request W V D) (b : Bool)
      → ((e : ServeError S P)
          → ((if b then handle_rocks values req else (Result.ok hello, req.chunks)).0
              ≡ Result.err e)
            ↔ ((b ≡ true) × Refused req e))
        × ((r : Response)
            → (if b then handle_rocks values req else (Result.ok hello, req.chunks)).0 ≡ Result.ok r
            → r ≡ (if b then not_found else hello))
  routed req true = (
    λ e. (λ h. (refl, (handle_rocks_err req e).0 h), λ h. (handle_rocks_err req e).1 h.1),
    handle_rocks_ok req,
  )
  routed req false = (λ e. (λ h. cc, λ h. cc), λ r h. cc)

  -- A request is answered with an error exactly if it is for the path of the service and says that it
  -- is a form with a length, and its length is not text, or is not a number, or is another number than
  -- the one that its body claims; which of these says which error. Any other request is answered with
  -- "not found" on that path and with the page elsewhere.
  pub serve_rocks_refuses :
      {D : Type 0} (req : Request W V D)
      → ((e : ServeError S P)
          → ((serve_rocks values req).0 ≡ Result.err e)
            ↔ ((values.uri_equals req.uri "/rocks" ≡ true) × Refused req e))
        × ((r : Response)
            → (serve_rocks values req).0 ≡ Result.ok r
            → r ≡ (if values.uri_equals req.uri "/rocks" then not_found else hello))
  unfolding serve_rocks
  serve_rocks_refuses req = routed req (values.uri_equals req.uri "/rocks")
