-- ===== src/Client/Chunks.antt =====
-- web/src/protocol/client.ts: `streamServerEvents` yields the same responses however the stream is cut
-- into chunks.
use whats_going_on.Prelude.{
  ℕ, zero, suc, ◌≡◌, refl, sym, ap, subst, ◌∙◌, Bool, true, none, some, List, [], ◌∷◌, ◌++◌, map,
  append-nil, append_assoc, length, drop, drop-append_length, All, All-append, arith, ltb, lt→ltb,
  if◌then◌else◌,
}
use whats_going_on.Cbor.Value.{ok, err, Platform, Laws, IsByte}
use whats_going_on.Cbor.Sequence.{decode_cbor_sequence_prefix}
use whats_going_on.Wire.Message.{Bytes, GeneratedReqRes, ReqResMessage}
use whats_going_on.Wire.Codec.{
  from_generated_req_res_message, encode_req_res_message_sequence,
  decode_req_res_message_sequence_prefix,
}
use whats_going_on.Wire.Fields.{Sendable}
use whats_going_on.Wire.Stream.{decode_req_res_message_sequence_prefix-append}
use whats_going_on.Cbor.Decode.{decode}
use whats_going_on.Cbor.Incremental.{ok-injective}
use whats_going_on.Wire.Pairs.{
  NoPair, no_kind, no_fields, Pairs, stop, pair, Pairs-NoPair, Pairs-Suffix, Pairs-Parted,
}
use whats_going_on.Wire.Buffer.{clash, Pairs-prefix, prefix-Pairs}
use whats_going_on.Client.Rpc.{
  coded, failed, Outcome, done, thrown, incomplete_stream_message, ProcCodec,
}
use whats_going_on.Client.Calls.{
  concat_chunks, concat_bytes, Events, followed_by, stream_response, stream_responses, stream_end,
  stream_loop,
}

concat_bytes_lem : (left right : Bytes) → concat_bytes left right ≡ left ++ right
unfolding concat_bytes
concat_bytes_lem [] right = refl
concat_bytes_lem (b ∷ left) [] = sym (append-nil (b ∷ left))
concat_bytes_lem (b ∷ left) (c ∷ right) = refl

dropped : (n : ℕ) (bs : Bytes) → (if ltb 0 n then drop n bs else bs) ≡ drop n bs
dropped zero bs = refl
dropped (suc n) bs = rw (lt→ltb 0 (suc n) (omega arith)) refl

concat_chunks-IsByte :
    (chunks : List Bytes) → All (All IsByte) chunks → All IsByte (concat_chunks chunks)
concat_chunks-IsByte [] h = tt
concat_chunks-IsByte (c ∷ cs) h = All-append IsByte c _ h.0 (concat_chunks-IsByte cs h.1)

module _ {Request Response : Type 0} (p : Platform) (proc : ProcCodec Request Response) where
  followed_by_assoc :
      (a b c : Events Response) → followed_by (followed_by a b) c ≡ followed_by a (followed_by b c)
  followed_by_assoc (rs, some f) b c = refl
  followed_by_assoc (rs, none) (qs, some f) c = refl
  followed_by_assoc (rs, none) (qs, none) (ps, f) = ap (λ t. (t, f)) (append_assoc rs qs ps)

  stream_responses-append :
      (ms ns : List ReqResMessage)
      → stream_responses p proc (ms ++ ns)
        ≡ followed_by (stream_responses p proc ms) (stream_responses p proc ns)
  unfolding stream_responses
  stream_responses-append [] ns = refl
  stream_responses-append (m ∷ ms) ns =
      go (stream_response p proc m) (stream_responses-append ms ns)
    where
      go :
          (r : Outcome Response)
          → stream_responses p proc (ms ++ ns)
            ≡ followed_by (stream_responses p proc ms) (stream_responses p proc ns)
          → elim r [
            | done q ↦ followed_by (q ∷ [], none) (stream_responses p proc (ms ++ ns))
            | thrown f ↦ ([], some f)
          ]
            ≡ followed_by
                (elim r [
                  | done q ↦ followed_by (q ∷ [], none) (stream_responses p proc ms)
                  | thrown f ↦ ([], some f)
                ])
                (stream_responses p proc ns)
      go (done q) ih =
          ap (followed_by (q ∷ [], none)) ih
          ∙ sym (
              followed_by_assoc (q ∷ [], none) (stream_responses p proc ms)
                (stream_responses p proc ns))
      go (thrown f) ih = refl

  NoPair-Pairs :
      (bs : Bytes) {ms : List ReqResMessage} {left : Bytes}
      → NoPair p bs
      → Pairs p bs ms left
      → (ms ≡ []) × (left ≡ bs)
  NoPair-Pairs bs n (stop n') = (refl, refl)
  NoPair-Pairs bs (no_kind cut) (pair e e' d later) = absurd (clash (sym cut ∙ e))
  NoPair-Pairs bs (no_fields {rest = rest} first cut) (pair {rest = rest'} e e' d later) =
      let same : rest ≡ rest' = cc in
      absurd (clash (sym cut ∙ (ap (λ t. decode p (suc (length t)) t) same ∙ e')))

  stream_loop-cons :
      (buffered chunk : Bytes) (chunks : List Bytes) (ends : Bool) {ms : List ReqResMessage} {n : ℕ}
      → decode_req_res_message_sequence_prefix p (concat_bytes buffered chunk) ≡ ok (ms, n)
      → stream_loop p proc buffered (chunk ∷ chunks) ends
        ≡ followed_by (stream_responses p proc ms) (
            stream_loop p proc
              (if ltb 0 n
                then drop n (concat_bytes buffered chunk)
                else concat_bytes buffered chunk)
              chunks
              ends)
  unfolding stream_loop
  stream_loop-cons buffered chunk chunks ends e =
      ap
        (λ r. elim r [
          | ok (messages, read_bytes) ↦ followed_by (stream_responses p proc messages) (
              stream_loop p proc
                (if ltb 0 read_bytes
                  then drop read_bytes (concat_bytes buffered chunk)
                  else concat_bytes buffered chunk)
                chunks ends)
          | err e ↦ ([], some (coded e))
        ])
        e

  -- The loop from a buffer without a whole pair.
  stream_loop-Pairs :
      (buffered : Bytes) (chunks : List Bytes) (ends : Bool) {ms : List ReqResMessage}
      {left : Bytes}
      → All IsByte buffered
      → All (All IsByte) chunks
      → NoPair p buffered
      → Pairs p (buffered ++ concat_chunks chunks) ms left
      → stream_loop p proc buffered chunks ends
        ≡ followed_by (stream_responses p proc ms) (stream_end p proc left ends)
  unfolding stream_loop stream_responses
  stream_loop-Pairs buffered [] ends {ms = ms} {left = left} hb hc n pairs =
      let (no_messages, all_left) =
        NoPair-Pairs buffered n (subst (λ t. Pairs p t ms left) (append-nil buffered) pairs) in
      rw (no_messages, all_left) refl
  stream_loop-Pairs buffered (chunk ∷ chunks) ends {ms = ms} {left = left} hb hc n pairs =
      let received = buffered ++ chunk in
      let hr = All-append IsByte buffered chunk hb hc.0 in
      let parted =
        Pairs-Parted p received (concat_chunks chunks) _ hr (concat_chunks-IsByte chunks hc.1)
          (sym (append_assoc buffered chunk (concat_chunks chunks))) pairs in
      let (count, read, behind) = Pairs-prefix p received hr parted.early_Pairs in
      let later =
        stream_loop-Pairs parted.between chunks ends (Pairs-Suffix p hr parted.early_Pairs).0 hc.1
          (Pairs-NoPair p parted.early_Pairs) parted.late_Pairs in
      stream_loop-cons buffered chunk chunks ends {ms = parted.early} {n = count}
        (rw (concat_bytes_lem buffered chunk) read)
      ∙ rw (concat_bytes_lem buffered chunk, dropped count received, behind, later, parted.messages)
          (sym (
            ap (λ t. followed_by t (stream_end p proc left ends))
              (stream_responses-append parted.early parted.late)
            ∙ followed_by_assoc (stream_responses p proc parted.early)
                (stream_responses p proc parted.late) (stream_end p proc left ends)))

  stream_end_lem :
      (tail : Bytes)
      → stream_end p proc tail true
        ≡ ([], if ltb 0 (length tail) then some (failed incomplete_stream_message) else none)
  unfolding stream_end
  stream_end_lem [] = refl
  stream_end_lem (b ∷ tail) = rw (lt→ltb 0 (suc (length tail)) (omega arith)) refl

  -- When the bytes that arrive, taken together, are read by `decodeReqResMessageSequencePrefix` as
  -- some messages in their first `n` bytes, then `streamServerEvents`, whatever chunks these bytes
  -- arrive in, yields the responses of these messages until one of them throws, and then ends as
  -- on the bytes behind the first `n`.
  pub stream_loop-chunks :
      (chunks : List Bytes) (ends : Bool) (ms : List ReqResMessage) (n : ℕ)
      → All (All IsByte) chunks
      → decode_req_res_message_sequence_prefix p (concat_chunks chunks) ≡ ok (ms, n)
      → stream_loop p proc [] chunks ends
        ≡ followed_by
            (stream_responses p proc ms)
            (stream_end p proc (drop n (concat_chunks chunks)) ends)
  stream_loop-chunks chunks ends ms n hc e =
      stream_loop-Pairs [] chunks ends tt hc (no_kind (unfold decode in refl))
        (prefix-Pairs p (concat_chunks chunks) (concat_chunks-IsByte chunks hc) e)

  -- On a platform that keeps its documented laws, when the daemon sends messages that may be sent,
  -- and behind them bytes that hold no whole item, and the stream then ends, `streamServerEvents`
  -- yields, whatever chunks the bytes arrive in, the responses of the messages until one of them
  -- throws; when none throws it then ends normally if no bytes are behind the messages, and throws
  -- the error of an incomplete message if there are any.
  pub stream_loop-encode :
      Laws p
      → (chunks : List Bytes) (gs : List GeneratedReqRes) (tail sent : Bytes)
      → All (All IsByte) chunks
      → All (Sendable p) gs
      → All IsByte tail
      → decode_cbor_sequence_prefix p tail ≡ ok []
      → encode_req_res_message_sequence p (map from_generated_req_res_message gs) ≡ ok sent
      → concat_chunks chunks ≡ sent ++ tail
      → stream_loop p proc [] chunks true
        ≡ followed_by
            (stream_responses p proc (map from_generated_req_res_message gs))
            ([], if ltb 0 (length tail) then some (failed incomplete_stream_message) else none)
  stream_loop-encode laws chunks gs tail sent hc hg ht none_whole encoded arrives =
      let (sent', encoded', decoded) =
        decode_req_res_message_sequence_prefix-append p laws tail ht none_whole gs hg in
      let same : sent ≡ sent' = ok-injective (sym encoded ∙ encoded') in
      let behind : drop (length sent') (concat_chunks chunks) ≡ tail =
        ap (drop (length sent')) (rw (← same) arrives) ∙ drop-append_length sent' tail in
      stream_loop-chunks chunks true _ (length sent') hc (rw (arrives, same) decoded)
      ∙ ap (followed_by (stream_responses p proc (map from_generated_req_res_message gs)))
          (rw behind (stream_end_lem tail))
