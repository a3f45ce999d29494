-- ===== src/Cbor/Resume.antt =====
-- web/src/protocol/cbor.ts: `decodeCborSequencePrefix` taken up again behind the items it found.
use native.Mathlib.Nat.{add_assoc, add-zero}
use whats_going_on.Prelude.{
  ℕ, zero, suc, ◌+◌, ◌-◌, ◌≡◌, refl, sym, ap, ◌∙◌, List, [], ◌∷◌, ◌++◌, map, arith, length,
  length-append, drop, drop-append_length, All, All-append, Bool-cases, inl, inr,
}
use whats_going_on.Cbor.Value.{Value, Result, ok, err, ◌>>=◌, Platform, IsByte}
use whats_going_on.Cbor.Decode.{decode}
use whats_going_on.Cbor.Sequence.{
  PrefixItem, is_unexpected_end, prefix_item, prefix_loop, decode_cbor_sequence_prefix,
}
use whats_going_on.Cbor.Profile.{Suffix}
use whats_going_on.Cbor.Incremental.{prepend, end_of, prefix-Split, prefix_enough, suffix-IsByte}

-- Items found `k` bytes further on.
abbrev pub shift : ℕ → PrefixItem → PrefixItem
shift k i = record i { end_offset = k + i.end_offset }

abbrev pub shifted : ℕ → Result (List PrefixItem) → Result (List PrefixItem)
shifted k r = r >>= λ items. ok (map (shift k) items)

shifted-cons :
    (k : ℕ) (i : PrefixItem) (r : Result (List PrefixItem))
    → (shifted k r >>= λ items. ok (shift k i ∷ items)) ≡ shifted k (r >>= λ items. ok (i ∷ items))
shifted-cons k i (ok items) = refl
shifted-cons k i (err e) = refl

prefix_item_shift :
    (k f offset len : ℕ) (p : Platform) (r : Result (Value × List ℕ))
    → ((e : ℕ) (rest : List ℕ) → prefix_loop p f (k + e) rest ≡ shifted k (prefix_loop p f e rest))
    → prefix_item (prefix_loop p f) (k + offset) len r
      ≡ shifted k (prefix_item (prefix_loop p f) offset len r)
unfolding prefix_item
prefix_item_shift k f offset len p (ok (v, rest)) ih =
    rw (add_assoc k offset (len - length rest), ih (offset + (len - length rest)) rest)
      (shifted-cons k _ _)
prefix_item_shift k f offset len p (err e) ih = elim (Bool-cases (is_unexpected_end e)) [
  | inl t ↦ rw t
  | inr t ↦ rw t
]

pub prefix_loop_shift :
    (p : Platform) (f k offset : ℕ) (bs : List ℕ)
    → prefix_loop p f (k + offset) bs ≡ shifted k (prefix_loop p f offset bs)
unfolding prefix_loop
prefix_loop_shift p zero k offset bs = refl
prefix_loop_shift p (suc f) k offset [] = refl
prefix_loop_shift p (suc f) k offset (b ∷ bs) =
    prefix_item_shift k f offset (length (b ∷ bs)) p (decode p (suc f) (b ∷ bs))
      (λ e rest. prefix_loop_shift p f k e rest)

pub suffix-drop :
    (left xs : List ℕ) (n : ℕ) → Suffix left xs → n + length left ≡ length xs → left ≡ drop n xs
suffix-drop left xs n (front, e) h =
    let size : length front ≡ n = omega (arith, ap length e, length-append front left) in
    rw (e, ← size) (sym (drop-append_length front left))

-- When `decodeCborSequencePrefix` finds items in a buffer of bytes, then on the buffer with more
-- bytes behind it finds the same items first, with the same offsets, and after them what it finds,
-- counted from offset 0, in the bytes behind the last of them.
pub decode_cbor_sequence_prefix-append :
    (p : Platform) (xs ys : List ℕ) (items : List PrefixItem)
    → All IsByte xs
    → All IsByte ys
    → decode_cbor_sequence_prefix p xs ≡ ok items
    → decode_cbor_sequence_prefix p (xs ++ ys)
      ≡ prepend items (
          shifted (end_of 0 items) (decode_cbor_sequence_prefix p (drop (end_of 0 items) xs ++ ys)))
unfolding decode_cbor_sequence_prefix
decode_cbor_sequence_prefix-append p xs ys items hx hy found =
    let (left, suffix, len, eq) =
      prefix-Split p (suc (length xs)) (suc (length (xs ++ ys))) 0 xs ys items hx hy (omega arith)
        (omega (arith, length-append xs ys)) (omega arith) found in
    let same = suffix-drop left xs (end_of 0 items) suffix (omega (arith, len)) in
    let bytes = All-append IsByte left ys (suffix-IsByte left xs suffix hx) hy in
    let n = end_of 0 items in
    let fuel =
      prefix_enough p (suc (length (left ++ ys))) (suc (length (xs ++ ys))) 0 (left ++ ys) bytes
        (omega arith) (omega (arith, length-append left ys, length-append xs ys, len)) in
    let moved = rw add-zero at (prefix_loop_shift p (suc (length (xs ++ ys))) n 0 (left ++ ys)) in
    rw (← same, eq) (ap (prepend items) (moved ∙ ap (shifted n) fuel))
