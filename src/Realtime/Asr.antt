-- ===== src/Realtime/Asr.antt =====
-- backend/realtime/doubao_streaming_protocol.py: the frames of streaming speech recognition.
pub mod Frames
use Prim.Native.Nat.{bit_and}
use cyber_companion.Base.{
  ℕ, ◌+◌, ◌-◌, ◌*◌, ◌/◌, ◌^◌, Bool, true, false, not, Option, none, some, List, [], ◌∷◌, ◌++◌,
  length, take, drop, ltb, ◌==◌, if◌then◌else◌, ◌>>=◌,
}
use cyber_companion.Base.Bytes.{Bytes, pack_u32, word}
use cyber_companion.Base.Int.{ℤ, pos, negsuc}
use cyber_companion.Base.Text.{is_empty}
use cyber_companion.Realtime.Codec.{Codec, Unzipped, data_, os_error, failure, as_dict}
use cyber_companion.Realtime.Dialog.{
  full_client_request, audio_only_request, server_error_response, no_serialization, json, gzip,
  header,
}

abbrev pub no_sequence : ℕ
no_sequence = 0

abbrev pub neg_sequence : ℕ
neg_sequence = 0b0010

-- `int.from_bytes(b[:4], "big", signed=True)`, of as many bytes as there are.
signed_word : Bytes → ℤ
signed_word b =
    let range = 256 ^ length (take 4 b) in
    if ltb (word b * 2) range then pos (word b) else negsuc (range - word b - 1)

module _ (c : Codec) where
  open c use {J, dumps, loads, compress, decompress}

  -- `none` is the exception of `struct.pack`.
  sized : Bytes → Bytes → Option Bytes
  sized head payload = do size ← pack_u32 (length payload); some (head ++ (size ++ payload))

  unfoldable pub build_full_client_request : J → Option Bytes
  unfolding sized
  build_full_client_request params =
      sized (header full_client_request no_sequence json gzip) (compress (dumps params))

  unfoldable pub build_audio_request : Bytes → Bool → Option Bytes
  unfolding sized
  build_audio_request pcm last =
      sized
        (header audio_only_request (if last then neg_sequence else no_sequence) no_serialization
          gzip)
        (compress pcm)

  pub record DoubaoAsrResponse : Type 0 where
    pub message_type : ℕ
    pub is_last : Bool
    pub code : Option ℕ
    pub payload : Option J
    pub seq : Option ℤ

  -- The sequence number and the rest of the body.
  seq_part : ℕ → Bytes → Option ℤ × Bytes
  unfolding signed_word
  seq_part flags body =
      if bit_and flags 0b0001 == 0 then (none, body) else (some (signed_word body), drop 4 body)

  -- `gzip.decompress`, whose exceptions pass here.
  unzipped : Unzipped → Option Bytes
  unzipped (data_ d) = some d
  unzipped os_error = none
  unzipped failure = none

  -- The payload of a frame; the outer `none` is an exception.
  pub read_payload : ℕ → ℕ → Bytes → Option (Option J)
  unfolding unzipped
  read_payload serialization compression payload = if is_empty payload then some none else (do
    plain ← if compression == gzip then unzipped (decompress payload) else some payload
    if serialization == json
        then (do decoded ← loads plain; some (some (as_dict c decoded)))
        else some none)

  -- The two shapes of a body.
  pub answered : ℕ → ℕ → ℕ → ℕ → Bytes → Option DoubaoAsrResponse
  unfolding seq_part
  answered message_type flags serialization compression body =
      let is_last = not (bit_and flags 0b0010 == 0) in
      if message_type == server_error_response
      then (do
        payload ← read_payload serialization compression (take (word (drop 4 body)) (drop 8 body))
        some (record {
          message_type = message_type;
          is_last = is_last;
          code = some (word body);
          payload = payload;
          seq = none;
        }))
      else (do
        let (seq, rest) = seq_part flags body
        payload ← read_payload serialization compression (take (word rest) (drop 4 rest))
        some (record {
          message_type = message_type;
          is_last = is_last;
          code = none;
          payload = payload;
          seq = seq;
        }))

  unfoldable pub parse_asr_response : Bytes → Option DoubaoAsrResponse
  parse_asr_response (b0 ∷ b1 ∷ b2 ∷ b3 ∷ rest) =
      answered (b1 / 16) (bit_and b1 0x0f) (b2 / 16) (bit_and b2 0x0f)
        (drop (bit_and b0 0x0f * 4) (b0 ∷ b1 ∷ b2 ∷ b3 ∷ rest))
  parse_asr_response _ = none
