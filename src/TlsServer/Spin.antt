-- ===== src/TlsServer/Spin.antt =====
-- A client of src/hyper_tls_server.rs that ends its stream within the head.
use rocks.Base.{
  arith, ltb, length, false, ℕ, zero, suc, ◌≡◌, refl, sym, subst, ◌⊎◌, inl, inr, [], none, some,
}
use rocks.Base.Words.{Bytes}
use rocks.Error.{Result}
use rocks.TlsServer.{Calls, more, Reading, fresh, buf_len, scan, read_head, serve_client, temp}

none_below : (n : ℕ) → ltb n 0 ≡ false
none_below n = ground arith

module _ {E L T S P : Type 0} (calls : Calls E L T S P) where
  -- The scan of these bytes finds no empty line, with whatever fuel, and leaves this.
  abbrev pub Asks : P → ℕ → Bytes → P → ℕ → Type 0
  Asks lp cnt got lp' cnt' =
      (fuel : ℕ)
      → (scan calls fuel lp got 0 cnt ≡ none)
        ⊎ (scan calls fuel lp got 0 cnt ≡ some (more lp' cnt'))

  -- A stream that gives some chunks without an empty line, and then has ended: a read at its end
  -- gives no bytes and changes nothing.
  pub data Unfinished : P → ℕ → S → Type 0 where
    ended :
        {lp : P} {cnt : ℕ} {s : S}
        → (calls.read s buf_len).0 ≡ Result.ok []
        → (calls.read s buf_len).1 ≡ s
        → Unfinished lp cnt s
    chunk :
        {lp lp' : P} {cnt cnt' : ℕ} {s : S} (got : Bytes)
        → (calls.read s buf_len).0 ≡ Result.ok got
        → Asks lp cnt got lp' cnt'
        → Unfinished lp' cnt' (calls.read s buf_len).1
        → Unfinished lp cnt s

  pub scan-Asks :
      (lp : P) (cnt : ℕ) (got : Bytes)
      → (calls.parse_line lp got).0 ≡ none
      → Asks lp cnt got (calls.parse_line lp got).1 cnt
  unfolding scan
  scan-Asks lp cnt got h zero = inl refl
  scan-Asks lp cnt got h (suc fuel) = inr (rw (none_below (length got), h, scan) refl)

  module _ (no_line : (lp : P) → (calls.parse_line lp []).0 ≡ none) where
    read_head-Unfinished :
        (fuel : ℕ) (r : Reading P) (s : S)
        → Unfinished r.lp r.line_cnt s
        → read_head calls fuel r s ≡ none
    unfolding read_head
    read_head-Unfinished zero r s u = refl
    read_head-Unfinished (suc fuel) r s (ended h same) =
        elim (scan-Asks r.lp r.line_cnt [] (no_line r.lp) fuel) [
          | inl out ↦ rw (h, read_head, out) refl
          | inr asks ↦
              rw (h, read_head, asks)
                (read_head-Unfinished fuel _ _ (
                  subst (Unfinished (calls.parse_line r.lp []).1 r.line_cnt) (sym same)
                    (ended h same)))
        ]
    read_head-Unfinished (suc fuel) r s (chunk got h step u) = elim (step fuel) [
      | inl out ↦ rw (h, read_head, out) refl
      | inr asks ↦ rw (h, read_head, asks) (read_head-Unfinished fuel _ _ u)
    ]

    -- Where the parser finds no line in no bytes, a client that ends its stream before the empty line
    -- of its head keeps the server in its loop for ever: it never serves another client and never
    -- returns.
    pub temp_spins :
        (fuel : ℕ) (l : L) (client : T) (s : S)
        → (calls.next l).0 ≡ some (Result.ok client)
        → calls.accept client ≡ Result.ok s
        → Unfinished calls.new_parser 0 s
        → temp calls fuel l ≡ none
    unfolding temp serve_client
    temp_spins zero l client s came accepted u = refl
    temp_spins (suc fuel) l client s came accepted u =
        rw
          (
            came,
            temp,
            serve_client,
            accepted,
            read_head-Unfinished fuel (fresh calls.new_parser) s u,
          )
          refl
