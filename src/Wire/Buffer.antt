-- ===== src/Wire/Buffer.antt =====
-- web/src/protocol/wire.ts: `decodeReqResMessageSequencePrefix` returns the messages of the whole pairs
-- at the front of its buffer.
use whats_going_on.Prelude.{
  ℕ, zero, suc, ◌+◌, ◌-◌, ◌<◌, ◌≡◌, refl, sym, ap, subst, ◌∙◌, inl, inr, true, List, [], ◌∷◌,
  length, All, arith, Bool-cases, drop,
}
use whats_going_on.Cbor.Value.{
  Value, Error, Result, ok, err, ◌>>=◌, Platform, IsByte, unexpected_end,
}
use whats_going_on.Cbor.Decode.{decode}
use whats_going_on.Cbor.Sequence.{
  PrefixItem, is_unexpected_end, prefix_item, prefix_loop, decode_cbor_sequence_prefix,
}
use whats_going_on.Cbor.Resume.{suffix-drop}
use whats_going_on.Cbor.Incremental.{bind-eq-ok, ok-injective}
use whats_going_on.Wire.Message.{ReqResMessage}
use whats_going_on.Wire.Codec.{
  decode_pair, decode_pairs, values_of, decode_req_res_message_sequence_prefix,
}
use whats_going_on.Wire.Pairs.{
  read_from, read_bytes_of-read_from, Cut, First, NoPair, no_kind, no_fields, Pairs, stop, pair,
  First-Rest, at_fuel, Pairs-Suffix,
}

only : (e : Error) → is_unexpected_end e ≡ true → e ≡ unexpected_end
only unexpected_end h = refl
only _ h = cc

pub clash : {A : Type 0} {a : A} {e : Error} → err e ≡ ok a → ⊥
clash h = cc

module _ (p : Platform) where
  -- The loop at a cut item, and at a whole one.
  loop-Cut :
      (f offset : ℕ) (bs : List ℕ)
      → All IsByte bs
      → length bs < f
      → Cut p bs
      → prefix_loop p f offset bs ≡ ok []
  unfolding prefix_loop prefix_item
  loop-Cut zero offset bs hb short e = elim short [ ]
  loop-Cut (suc f) offset [] hb short e = refl
  loop-Cut (suc f) offset (b ∷ bs) hb short e = rw (at_fuel p (suc f) (b ∷ bs) hb short, e) refl

  abbrev item : ℕ → List ℕ → Value → List ℕ → PrefixItem
  item offset bs v rest = record { value = v; end_offset = offset + (length bs - length rest) }

  loop-First :
      (f offset : ℕ) (bs : List ℕ) {v : Value} {rest : List ℕ}
      → All IsByte bs
      → length bs < suc f
      → First p bs v rest
      → prefix_loop p (suc f) offset bs ≡ (
          prefix_loop p f (offset + (length bs - length rest)) rest >>= λ later.
          ok (item offset bs v rest ∷ later))
  unfolding prefix_loop prefix_item
  loop-First f offset [] hb short e = absurd (omega (arith, (First-Rest p {bs = []} hb e).1))
  loop-First f offset (b ∷ bs) hb short e = rw (at_fuel p (suc f) (b ∷ bs) hb short, e) refl

  -- What the loop finds in a buffer with these messages and these bytes left.
  record Found (f offset : ℕ) (bs : List ℕ) (ms : List ReqResMessage) (left : List ℕ) : Type 0 where
    items : List PrefixItem
    finds : prefix_loop p f offset bs ≡ ok items
    decodes : decode_pairs (values_of items) ≡ ok ms
    reads : read_from offset items + length left ≡ offset + length bs

  NoPair-Found :
      (f offset : ℕ) (bs : List ℕ)
      → All IsByte bs
      → length bs < f
      → NoPair p bs
      → Found f offset bs [] bs
  unfolding decode_pairs
  NoPair-Found f offset bs hb short (no_kind cut) = record {
    items = [];
    finds = loop-Cut f offset bs hb short cut;
    decodes = refl;
    reads = refl;
  }
  NoPair-Found zero offset bs hb short (no_fields e cut) = elim short [ ]
  NoPair-Found (suc f) offset bs hb short (no_fields {v = v} {rest = rest} e cut) =
      let (h, less, s) = First-Rest p hb e in
      record {
        items = item offset bs v rest ∷ [];
        finds =
            rw
              (
                loop-First f offset bs hb short e,
                loop-Cut f (offset + (length bs - length rest)) rest h (omega arith) cut,
              )
              refl;
        decodes = refl;
        reads = refl;
      }

  Pairs-Found :
      (f offset : ℕ) (bs : List ℕ) {ms : List ReqResMessage} {left : List ℕ}
      → All IsByte bs
      → length bs < f
      → Pairs p bs ms left
      → Found f offset bs ms left
  unfolding decode_pairs
  Pairs-Found f offset bs hb short (stop n) = NoPair-Found f offset bs hb short n
  Pairs-Found zero offset bs hb short (pair e e' d later) = elim short [ ]
  Pairs-Found (suc zero) offset bs hb short (pair e e' d later) =
      absurd (omega (arith, (First-Rest p hb e).1))
  Pairs-Found (suc (suc f)) offset bs {left = left} hb short
        (pair {rest = rest} {rest' = rest'} {v = v} {w = w} e e' d later) =
      let (h, less, s) = First-Rest p hb e in
      let (h', less', s') = First-Rest p h e' in
      let middle = offset + (length bs - length rest) in
      let found =
        Pairs-Found f (middle + (length rest - length rest')) rest' h' (omega arith) later in
      record {
        items = item offset bs v rest ∷ item middle rest w rest' ∷ found.items;
        finds =
            rw
              (
                loop-First (suc f) offset bs hb short e,
                loop-First f middle rest h (omega arith) e',
                found.finds,
              )
              refl;
        decodes = rw (d, found.decodes) refl;
        reads = omega (arith, found.reads);
      }

  -- What one round of the loop found.
  data Round (f offset : ℕ) (bs : List ℕ) (items : List PrefixItem) : Type 0 where
    cut_round : Cut p bs → items ≡ [] → Round f offset bs items
    item_round :
        (v : Value) (rest : List ℕ) (later : List PrefixItem)
        → First p bs v rest
        → items ≡ item offset bs v rest ∷ later
        → prefix_loop p f (offset + (length bs - length rest)) rest ≡ ok later
        → Round f offset bs items

  loop-Round :
      (f offset : ℕ) (bs : List ℕ) (items : List PrefixItem)
      → All IsByte bs
      → length bs < suc f
      → prefix_loop p (suc f) offset bs ≡ ok items
      → Round f offset bs items
  unfolding prefix_loop prefix_item
  loop-Round f offset [] items hb short found =
      cut_round (unfold decode in refl) (sym (ok-injective found))
  loop-Round f offset (b ∷ bs) items hb short found =
      go (decode p (suc (length (b ∷ bs))) (b ∷ bs)) refl
        (rw (at_fuel p (suc f) (b ∷ bs) hb short) at found)
    where
      go :
          (r : Result (Value × List ℕ))
          → decode p (suc (length (b ∷ bs))) (b ∷ bs) ≡ r
          → prefix_item
              (prefix_loop p f)
              offset
              (length (b ∷ bs))
              (decode p (suc (length (b ∷ bs))) (b ∷ bs))
            ≡ ok items
          → Round f offset (b ∷ bs) items
      go (ok (v, rest)) d h =
          let (later, found', built) =
            bind-eq-ok (prefix_loop p f (offset + (suc (length bs) - length rest)) rest) _
              (rw d at h) in
          item_round v rest later d (sym (ok-injective built)) found'
      go (err x) d h = elim (Bool-cases (is_unexpected_end x)) [
        | inl t ↦ cut_round (d ∙ ap err (only x t)) (sym (ok-injective (rw (d, t) at h)))
        | inr t ↦ absurd (clash (rw (d, t) at h))
      ]

  -- The messages that the loop's items hold are those of the pairs.
  abbrev Holds : ℕ → List ℕ → List PrefixItem → List ReqResMessage → Type 0
  Holds offset bs items ms =
      (left : List ℕ) × Pairs p bs ms left
      × (read_from offset items + length left ≡ offset + length bs)

  abbrev Holding : ℕ → Type 0
  Holding f =
      (offset : ℕ) (bs : List ℕ) (items : List PrefixItem) (ms : List ReqResMessage)
      → All IsByte bs
      → length bs < f
      → prefix_loop p f offset bs ≡ ok items
      → decode_pairs (values_of items) ≡ ok ms
      → Holds offset bs items ms

  module _ (f offset : ℕ) (bs : List ℕ) (items : List PrefixItem) (ms : List ReqResMessage)
      (hb : All IsByte bs) where
    second-Round :
        (v : Value) (rest : List ℕ) (later : List PrefixItem)
        → Holding f
        → length bs < suc (suc f)
        → First p bs v rest
        → items ≡ item offset bs v rest ∷ later
        → Round f (offset + (length bs - length rest)) rest later
        → decode_pairs (values_of items) ≡ ok ms
        → Holds offset bs items ms
    unfolding decode_pairs
    second-Round v rest later ih short e eq (cut_round cut none) d =
        let eq' = rw none at eq in
        (
          bs,
          subst (λ t. Pairs p bs t bs) (ok-injective (rw eq' at d)) (stop (no_fields e cut)),
          rw eq' refl,
        )
    second-Round v rest later ih short e eq (item_round w rest' later' e' eq' found') d =
        let both = eq ∙ ap (λ t. item offset bs v rest ∷ t) eq' in
        let (m, dm, next) = bind-eq-ok (decode_pair v w) _ (rw both at d) in
        let (ms', dms, built) = bind-eq-ok (decode_pairs (values_of later')) _ next in
        let (h, less, s) = First-Rest p hb e in
        let (h', less', s') = First-Rest p h e' in
        let (left, pairs, reads) = ih _ rest' later' ms' h' (omega arith) found' dms in
        (
          left,
          subst (λ t. Pairs p bs t left) (ok-injective built) (pair e e' dm pairs),
          rw both (omega (arith, reads)),
        )

  first-Round :
      (f offset : ℕ) (bs : List ℕ) (items : List PrefixItem) (ms : List ReqResMessage)
      → All IsByte bs
      → length bs < suc (suc f)
      → Holding f
      → Round (suc f) offset bs items
      → decode_pairs (values_of items) ≡ ok ms
      → Holds offset bs items ms
  unfolding decode_pairs
  first-Round f offset bs items ms hb short ih (cut_round cut none) d = (
    bs,
    subst (λ t. Pairs p bs t bs) (ok-injective (rw none at d)) (stop (no_kind cut)),
    rw none refl,
  )
  first-Round f offset bs items ms hb short ih (item_round v rest later e eq found) d =
      let (h, less, s) = First-Rest p hb e in
      second-Round f offset bs items ms hb v rest later ih short e eq
        (loop-Round f _ rest later h (omega arith) found) d

  found_Pairs : (f : ℕ) → Holding f
  unfolding decode_pairs
  found_Pairs zero offset bs items ms hb short found d = elim short [ ]
  found_Pairs (suc zero) offset [] items ms hb short found d =
      only_round (loop-Round zero offset [] items hb short found)
    where
      only_round : Round zero offset [] items → Holds offset [] items ms
      only_round (cut_round cut none) = (
        [],
        subst (λ t. Pairs p [] t []) (ok-injective (rw none at d)) (stop (no_kind cut)),
        rw none refl,
      )
      only_round (item_round v rest later e eq found) =
          absurd (omega (arith, (First-Rest p {bs = []} hb e).1))
  found_Pairs (suc zero) offset (b ∷ bs) items ms hb short found d = absurd (omega arith)
  found_Pairs (suc (suc f)) offset bs items ms hb short found d =
      first-Round f offset bs items ms hb short (found_Pairs f)
        (loop-Round (suc f) offset bs items hb short found) d

  -- `decodeReqResMessageSequencePrefix` returns the messages of the whole pairs, and `readBytes` is the
  -- number of the bytes in front of those that they leave.
  pub Pairs-prefix :
      (bs : List ℕ) {ms : List ReqResMessage} {left : List ℕ}
      → All IsByte bs
      → Pairs p bs ms left
      → (n : ℕ) × (decode_req_res_message_sequence_prefix p bs ≡ ok (ms, n)) × (drop n bs ≡ left)
  unfolding decode_req_res_message_sequence_prefix decode_cbor_sequence_prefix
  Pairs-prefix bs {left = left} hb pairs =
      let found = Pairs-Found (suc (length bs)) 0 bs hb (omega arith) pairs in
      let (h, s) = Pairs-Suffix p hb pairs in
      (
        read_from 0 found.items,
        rw (found.finds, found.decodes, read_bytes_of-read_from) refl,
        sym (suffix-drop left bs _ s (omega (arith, found.reads))),
      )

  pub prefix-Pairs :
      (bs : List ℕ) {ms : List ReqResMessage} {n : ℕ}
      → All IsByte bs
      → decode_req_res_message_sequence_prefix p bs ≡ ok (ms, n)
      → Pairs p bs ms (drop n bs)
  unfolding decode_req_res_message_sequence_prefix decode_cbor_sequence_prefix
  prefix-Pairs bs {ms = ms} {n = n} hb e =
      let (items, found, next) = bind-eq-ok (prefix_loop p (suc (length bs)) 0 bs) _ e in
      let (ms', d, built) = bind-eq-ok (decode_pairs (values_of items)) _ next in
      let (left, pairs, reads) =
        found_Pairs (suc (length bs)) 0 bs items ms' hb (omega arith) found d in
      let (h, s) = Pairs-Suffix p hb pairs in
      let same = ok-injective built in
      let count : read_from 0 items ≡ n =
        sym (read_bytes_of-read_from items) ∙ ap (λ t. t.1) same in
      subst (λ t. Pairs p bs t (drop n bs)) (ap (λ t. t.0) same)
        (subst (Pairs p bs ms') (suffix-drop left bs n s (omega (arith, reads, count))) pairs)
