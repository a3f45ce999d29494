-- ===== src/Wire/Pairs.antt =====
-- web/src/protocol/wire.ts: the whole pairs at the front of a stream's buffer, and the bytes behind
-- them.
use whats_going_on.Prelude.{
  ℕ, suc, ◌<◌, ◌≡◌, refl, sym, ap, subst, ◌∙◌, ◌⊎◌, inl, inr, List, [], ◌∷◌, ◌++◌, append_assoc,
  length, length-append, All, arith,
}
use whats_going_on.Cbor.Value.{Value, Result, ok, err, Platform, IsByte, unexpected_end}
use whats_going_on.Cbor.Decode.{decode}
use whats_going_on.Cbor.Sequence.{PrefixItem}
use whats_going_on.Cbor.Profile.{Profile, EnsuresAt, Suffix}
use whats_going_on.Cbor.Ensures.{decode-Ensures}
use whats_going_on.Cbor.Follows.{extend}
use whats_going_on.Cbor.Streaming.{decode-append}
use whats_going_on.Cbor.Incremental.{decode_enough}
use whats_going_on.Wire.Message.{ReqResMessage}
use whats_going_on.Wire.Codec.{decode_pair, read_bytes_of}

-- The offset behind the last whole pair of items, from where they start.
abbrev pub read_from : ℕ → List PrefixItem → ℕ
read_from offset [] = offset
read_from offset (a ∷ []) = offset
read_from offset (a ∷ b ∷ items) = read_from b.end_offset items

pub read_bytes_of-read_from : (items : List PrefixItem) → read_bytes_of items ≡ read_from 0 items
read_bytes_of-read_from [] = refl
read_bytes_of-read_from (a ∷ []) = refl
read_bytes_of-read_from (a ∷ b ∷ []) = refl
read_bytes_of-read_from (a ∷ b ∷ c ∷ []) = refl
read_bytes_of-read_from (a ∷ b ∷ c ∷ d ∷ items) = read_bytes_of-read_from (c ∷ d ∷ items)

module _ (p : Platform) where
  -- The first item of a buffer.
  abbrev pub Cut : List ℕ → Type 0
  Cut bs = decode p (suc (length bs)) bs ≡ err unexpected_end

  abbrev pub First : List ℕ → Value → List ℕ → Type 0
  First bs v rest = decode p (suc (length bs)) bs ≡ ok (v, rest)

  -- No whole pair stands at the front.
  pub data NoPair (bs : List ℕ) : Type 0 where
    no_kind : Cut bs → NoPair bs
    no_fields : {v : Value} {rest : List ℕ} → First bs v rest → Cut rest → NoPair bs

  -- The buffer holds the pairs of these messages, and behind them no whole pair.
  pub data Pairs : List ℕ → List ReqResMessage → List ℕ → Type 0 where
    stop : {bs : List ℕ} → NoPair bs → Pairs bs [] bs
    pair :
        {bs rest rest' left : List ℕ} {v w : Value} {m : ReqResMessage} {ms : List ReqResMessage}
        → First bs v rest
        → First rest w rest'
        → decode_pair v w ≡ ok m
        → Pairs rest' ms left
        → Pairs bs (m ∷ ms) left

  -- What is left behind an item is a shorter end of the buffer.
  pub First-Rest :
      {bs rest : List ℕ} {v : Value}
      → All IsByte bs
      → First bs v rest
      → All IsByte rest × (length rest < length bs) × Suffix rest bs
  First-Rest {bs = bs} hb e =
      let (pv, hb', less, s) =
        subst (EnsuresAt Profile 1 bs) e (decode-Ensures p _ bs hb (omega arith)) in
      (hb', omega arith, s)

  pub at_fuel :
      (f : ℕ) (bs : List ℕ)
      → All IsByte bs
      → length bs < f
      → decode p f bs ≡ decode p (suc (length bs)) bs
  at_fuel f bs hb short = decode_enough p (suc (length bs)) f bs hb (omega arith) (omega arith)

  -- The first item of a part of a buffer is that of the whole, or it is cut.
  pub First-part :
      (xs ys : List ℕ) (v : Value) (rest : List ℕ)
      → All IsByte xs
      → All IsByte ys
      → First (xs ++ ys) v rest
      → Cut xs ⊎ ((rest' : List ℕ) × First xs v rest' × (rest ≡ rest' ++ ys))
  First-part xs ys v rest hx hy e =
      let f = suc (length (xs ++ ys)) in
      let same = at_fuel f xs hx (omega (arith, length-append xs ys)) in
      elim (decode-append p f xs ys) [
        | inl short ↦ inl (sym same ∙ short)
        | inr more ↦ go (decode p (suc (length xs)) xs) refl (sym e ∙ (more ∙ ap (extend ys) same))
      ]
    where
      go :
          (r : Result (Value × List ℕ))
          → decode p (suc (length xs)) xs ≡ r
          → ok (v, rest) ≡ extend ys (decode p (suc (length xs)) xs)
          → Cut xs ⊎ ((rest' : List ℕ) × First xs v rest' × (rest ≡ rest' ++ ys))
      go (ok (v', rest')) d h = inr (rest', cc, cc)
      go (err x) d h = absurd cc

  Cut-part : (xs ys : List ℕ) → All IsByte xs → Cut (xs ++ ys) → Cut xs
  Cut-part xs ys hx e =
      let f = suc (length (xs ++ ys)) in
      let same = at_fuel f xs hx (omega (arith, length-append xs ys)) in
      elim (decode-append p f xs ys) [
        | inl short ↦ sym same ∙ short
        | inr more ↦ go (decode p (suc (length xs)) xs) refl (sym e ∙ (more ∙ ap (extend ys) same))
      ]
    where
      go :
          (r : Result (Value × List ℕ))
          → decode p (suc (length xs)) xs ≡ r
          → err unexpected_end ≡ extend ys (decode p (suc (length xs)) xs)
          → Cut xs
      go (ok (v', rest')) d h = absurd cc
      go (err x) d h = cc

  NoPair-part : (xs ys : List ℕ) → All IsByte xs → All IsByte ys → NoPair (xs ++ ys) → NoPair xs
  NoPair-part xs ys hx hy (no_kind e) = no_kind (Cut-part xs ys hx e)
  NoPair-part xs ys hx hy (no_fields {v = v} {rest = rest} e cut) =
      elim (First-part xs ys v rest hx hy e) [
        | inl short ↦ no_kind short
        | inr (rest', e', same) ↦
            no_fields e' (Cut-part rest' ys (First-Rest hx e').0 (subst Cut same cut))
      ]

  pub Pairs-NoPair :
      {bs : List ℕ} {ms : List ReqResMessage} {left : List ℕ} → Pairs bs ms left → NoPair left
  Pairs-NoPair (stop n) = n
  Pairs-NoPair (pair e e' d later) = Pairs-NoPair later

  pub Pairs-Suffix :
      {bs : List ℕ} {ms : List ReqResMessage} {left : List ℕ}
      → All IsByte bs
      → Pairs bs ms left
      → All IsByte left × Suffix left bs
  Pairs-Suffix hb (stop n) = (hb, ([], refl))
  Pairs-Suffix hb (pair {left = left} e e' d later) =
      let (h, less, (front, s)) = First-Rest hb e in
      let (h', less', (front', s')) = First-Rest h e' in
      let (h'', (front'', s'')) = Pairs-Suffix h' later in
      (
        h'',
        (
          front ++ (front' ++ front''),
          s
              ∙ (ap (λ t. front ++ t)
                    (s' ∙ (ap (λ t. front' ++ t) s'' ∙ sym (append_assoc front' front'' left)))
                  ∙ sym (append_assoc front (front' ++ front'') left)),
        ),
      )

  -- The pairs of a part of a buffer come first, and the rest of them stand in the bytes that the part
  -- leaves, with the rest of the buffer behind them.
  pub record Parted (xs ys : List ℕ) (ms : List ReqResMessage) (left : List ℕ) : Type 0 where
    pub early : List ReqResMessage
    pub late : List ReqResMessage
    pub between : List ℕ
    pub messages : ms ≡ early ++ late
    pub early_Pairs : Pairs xs early between
    pub late_Pairs : Pairs (between ++ ys) late left

  pub Pairs-Parted :
      (xs ys whole : List ℕ) {ms : List ReqResMessage} {left : List ℕ}
      → All IsByte xs
      → All IsByte ys
      → whole ≡ xs ++ ys
      → Pairs whole ms left
      → Parted xs ys ms left
  Pairs-Parted xs ys whole hx hy eq (stop n) = record {
    early = [];
    late = [];
    between = xs;
    messages = refl;
    early_Pairs = stop (NoPair-part xs ys hx hy (subst NoPair eq n));
    late_Pairs = subst (λ t. Pairs t [] whole) eq (stop n);
  }
  Pairs-Parted xs ys whole {left = left} hx hy eq
        (pair {rest = rest} {rest' = rest'} {v = v} {w = w} {m = m} {ms = ms} e e' d later) =
      elim (First-part xs ys v rest hx hy (subst (λ t. First t v rest) eq e)) [
        | inl short ↦ none_yet (no_kind short)
        | inr (r, f, same) ↦
            elim (First-part r ys w rest' (First-Rest hx f).0 hy
              (subst (λ t. First t w rest') same e')) [
                | inl short ↦ none_yet (no_fields f short)
                | inr (r', f', same') ↦
                    let parted =
                      Pairs-Parted r' ys rest' (First-Rest (First-Rest hx f).0 f').0 hy same'
                        later in
                    record {
                      early = m ∷ parted.early;
                      late = parted.late;
                      between = parted.between;
                      messages = ap (λ t. m ∷ t) parted.messages;
                      early_Pairs = pair f f' d parted.early_Pairs;
                      late_Pairs = parted.late_Pairs;
                    }
              ]
      ]
    where
      none_yet : NoPair xs → Parted xs ys (m ∷ ms) left
      none_yet n = record {
        early = [];
        late = m ∷ ms;
        between = xs;
        messages = refl;
        early_Pairs = stop n;
        late_Pairs = subst (λ t. Pairs t (m ∷ ms) left) eq (pair e e' d later);
      }
