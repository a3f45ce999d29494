-- ===== src/Cbor/Totality.antt =====
-- web/src/protocol/cbor.ts: `decodeCbor`, `decodeCborSequence` and `decodeCborSequencePrefix` end on
-- every input, and what they return.
use whats_going_on.Prelude.{
  ℕ, zero, suc, ◌<◌, ◌≡◌, List, [], ◌∷◌, arith, length, All, false, ◌==◌, if◌then◌else◌,
}
use whats_going_on.Cbor.Value.{Value, Result, ok, err, ◌>>=◌, Platform, IsByte, trailing_bytes}
use whats_going_on.Cbor.Decode.{decode, decode_cbor}
use whats_going_on.Cbor.Sequence.{sequence_loop, decode_cbor_sequence}
use whats_going_on.Cbor.Profile.{Profile, EnsuresAt, EnsuresValue}
use whats_going_on.Cbor.Ensures.{decode-Ensures}

finish-Ensures :
    (bs : List ℕ) (r : Result (Value × List ℕ))
    → EnsuresAt Profile 1 bs r
    → EnsuresValue Profile
        (r >>= λ (value, rest). if length rest == 0 then ok value else err trailing_bytes)
finish-Ensures bs (ok (v, [])) h = h.0
finish-Ensures bs (ok (v, b ∷ rest)) h =
    let more : (suc (length rest) == 0) ≡ false = ground arith in rw more (λ e. cc)
finish-Ensures bs (err e) ne = ne

-- On every input of bytes `decodeCbor` returns a value of the profile, or throws one of the program's
-- errors: the fuel lasts.
pub decode_cbor-Profile :
    (p : Platform) (bs : List ℕ) → All IsByte bs → EnsuresValue Profile (decode_cbor p bs)
unfolding decode_cbor
decode_cbor-Profile p bs hb =
    finish-Ensures bs (decode p (suc (length bs)) bs)
      (decode-Ensures p (suc (length bs)) bs hb (omega arith))

sequence_loop-Ensures :
    (p : Platform) (f : ℕ) (bs : List ℕ)
    → All IsByte bs
    → length bs < f
    → EnsuresValue (All Profile) (sequence_loop p f bs)
unfolding sequence_loop
sequence_loop-Ensures p zero bs hb short = elim short [ ]
sequence_loop-Ensures p (suc f) [] hb short = tt
sequence_loop-Ensures p (suc f) (b ∷ bs) hb short =
    go (decode p (suc f) (b ∷ bs)) (decode-Ensures p (suc f) (b ∷ bs) hb short)
      (sequence_loop-Ensures p f)
  where
    add :
        (v : Value) (r : Result (List Value))
        → Profile v
        → EnsuresValue (All Profile) r
        → EnsuresValue (All Profile) (r >>= λ values. ok (v ∷ values))
    add v (ok vs) pv pvs = (pv, pvs)
    add v (err e) pv ne = ne

    go :
        (r : Result (Value × List ℕ))
        → EnsuresAt Profile 1 (b ∷ bs) r
        → ((rest : List ℕ)
            → All IsByte rest
            → length rest < f
            → EnsuresValue (All Profile) (sequence_loop p f rest))
        → EnsuresValue
            (All Profile)
            (r >>= λ (value, rest). sequence_loop p f rest >>= λ values. ok (value ∷ values))
    go (ok (v, rest)) (pv, hr, less, s) ih =
        add v (sequence_loop p f rest) pv (ih rest hr (omega arith))
    go (err e) ne ih = ne

-- On every input of bytes `decodeCborSequence` returns values of the profile or throws one of the
-- program's errors.
pub decode_cbor_sequence-Profile :
    (p : Platform) (bs : List ℕ)
    → All IsByte bs
    → EnsuresValue (All Profile) (decode_cbor_sequence p bs)
unfolding decode_cbor_sequence
decode_cbor_sequence-Profile p bs hb = sequence_loop-Ensures p (suc (length bs)) bs hb (omega arith)
