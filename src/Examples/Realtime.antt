-- ===== src/Examples/Realtime.antt =====
-- Runs of the realtime models.
use cyber_companion.Base.{
  ℕ, ◌+◌, ◌≡◌, ◌≢◌, ◌≤◌, refl, true, false, not, Option, none, some, [], ◌∷◌, inr, arith, length,
  ◌++◌, ◌==◌, if◌then◌else◌,
}
use cyber_companion.Base.Bytes.{Bytes, pack_u32, be32}
use cyber_companion.Base.Text.{Text, codes, is_empty}
use cyber_companion.Realtime.Codec.{Codec, Unzipped, data_, os_error, as_dict}
use cyber_companion.Realtime.Dialog.{
  full_client_request, audio_only_request, audio_only_response, msg_with_event, json, gzip,
  no_serialization, header, build_session_event, DoubaoDialogResponse, parse_response,
}
use cyber_companion.Realtime.Dialog.RoundTrip.{parse-build_session_json, parse-build_session_audio}
use cyber_companion.Realtime.Asr.{
  no_sequence, neg_sequence, build_full_client_request, build_audio_request, parse_asr_response,
}
use cyber_companion.Realtime.Asr.Frames.{parse-build_full_client_request, parse-build_audio_request}
use cyber_companion.Realtime.BargeIn.{
  History, bot_started, user_started, task_turn, interrupts, run,
}
use cyber_companion.Realtime.BargeIn.Debounce.{TalkedOver, speaking, interrupts-TalkedOver}

-- One number is the only JSON, and gzip puts its magic number in front.
loads : Bytes → Option ℕ
loads (j ∷ []) = some j
loads _ = none

decompress : Bytes → Unzipped
decompress [] = os_error
decompress (magic ∷ b) = if magic == 31 then data_ b else os_error

one_byte : (j : ℕ) → j ∷ [] ≢ []
one_byte j e = ground arith

with_magic : (b : Bytes) → 31 ∷ b ≢ []
with_magic b e = ground arith

abbrev tiny : Codec
tiny = record {
  J = ℕ;
  is_dict = λ j. true;
  empty_dict = 0;
  is_truthy = λ j. not (j == 0);
  value_dict = λ j. j;
  dumps = λ j. j ∷ [];
  loads = loads;
  compress = λ b. 31 ∷ b;
  decompress = decompress;
  encode = λ t. t;
  decode = λ b. b;
  loads-dumps = λ j. unfold loads in refl;
  dumps-ne-nil = one_byte;
  decompress-compress = λ b. unfold decompress in refl;
  compress-ne-nil = with_magic;
  decode-encode = λ t. refl;
}

-- The user talks over the companion from 200 on.
abbrev before : History
before = (300, task_turn) ∷ (200, user_started) ∷ (100, bot_started) ∷ []

interrupts-TalkedOver_example :
    (since : ℕ) × (since + 500 ≤ 700)
    × (true ≡ true)
    × (speaking before ≡ true)
    × TalkedOver since before
unfolding interrupts run
interrupts-TalkedOver_example = interrupts-TalkedOver true 500 700 before refl

abbrev sid : Text
sid = codes "s1"

abbrev session : Bytes → ℕ → Bytes
session body serialization =
    header audio_only_response msg_with_event serialization gzip
    ++ (be32 352 ++ (be32 2 ++ (sid ++ (be32 (length body) ++ body))))

parse-build_session_json_example :
    parse_response tiny (session (31 ∷ 7 ∷ []) json)
    ≡ some (record {
      message_type = audio_only_response;
      flags = msg_with_event;
      serialization = json;
      compression = gzip;
      event = some 352;
      session_id = some sid;
      code = none;
      payload_bytes = [];
      payload_json = some 7;
    })
unfolding build_session_event pack_u32 as_dict
parse-build_session_json_example =
    parse-build_session_json tiny audio_only_response 352 sid 7 {frame = session (31 ∷ 7 ∷ []) json}
      (inr refl) (omega arith) (omega arith) refl

parse-build_session_audio_example :
    (r : DoubaoDialogResponse tiny) × (parse_response tiny
        (session (31 ∷ 1 ∷ 2 ∷ []) no_serialization)
      ≡ some r)
    × (r.message_type ≡ audio_only_response)
    × (r.event ≡ some 352)
    × (r.session_id ≡ some sid)
    × (r.payload_bytes ≡ 1 ∷ 2 ∷ [])
    × (r.payload_json ≡ none)
unfolding build_session_event pack_u32 is_empty
parse-build_session_audio_example =
    parse-build_session_audio tiny audio_only_response 352 sid (1 ∷ 2 ∷ [])
      {frame = session (31 ∷ 1 ∷ 2 ∷ []) no_serialization} (inr refl) (λ e. ground arith)
      (omega arith) (omega arith) refl

-- The bytes of a request: configuration 7, and one sample that ends the stream.
abbrev configured : Bytes
configured = header full_client_request no_sequence json gzip ++ (be32 2 ++ (31 ∷ 7 ∷ []))

abbrev final_chunk : Bytes
final_chunk =
    header audio_only_request neg_sequence no_serialization gzip ++ (be32 2 ++ (31 ∷ 5 ∷ []))

parse-build_full_client_request_example :
    parse_asr_response tiny configured
    ≡ some (record {
      message_type = full_client_request;
      is_last = false;
      code = none;
      payload = some 7;
      seq = none;
    })
unfolding build_full_client_request pack_u32 as_dict
parse-build_full_client_request_example =
    parse-build_full_client_request tiny 7 {frame = configured} refl

parse-build_audio_request_example :
    parse_asr_response tiny final_chunk
    ≡ some (record {
      message_type = audio_only_request;
      is_last = true;
      code = none;
      payload = none;
      seq = none;
    })
unfolding build_audio_request pack_u32
parse-build_audio_request_example =
    parse-build_audio_request tiny (5 ∷ []) true {frame = final_chunk} refl
