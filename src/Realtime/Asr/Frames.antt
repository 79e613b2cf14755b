-- ===== src/Realtime/Asr/Frames.antt =====
-- backend/realtime/doubao_streaming_protocol.py: building a frame and parsing it again.
use cyber_companion.Base.{
  ◌^◌, ◌<◌, ◌≡◌, ◌≢◌, refl, Bool, true, false, none, some, [], ◌∷◌, ◌++◌, length, take-all, arith,
}
use cyber_companion.Base.Bytes.{Bytes, pack_u32, be32, word-be32, drop-be32}
use cyber_companion.Base.Text.{is_empty}
use cyber_companion.Realtime.Codec.{Codec, as_dict}
use cyber_companion.Realtime.Dialog.{
  full_client_request, audio_only_request, no_serialization, json, gzip, header,
}
use cyber_companion.Realtime.Asr.{
  no_sequence, neg_sequence, build_full_client_request, build_audio_request, sized, seq_part,
  read_payload, answered, unzipped, parse_asr_response,
}

module _ (c : Codec) where
  open c use {J, dumps, compress}

  not_empty_bytes : (b : Bytes) → b ≢ [] → is_empty b ≡ false
  unfolding is_empty
  not_empty_bytes [] h = absurd (h refl)
  not_empty_bytes (x ∷ b) h = refl

  sized-some :
      (head payload frame : Bytes)
      → sized c head payload ≡ some frame
      → (length payload < 2 ^ 32) × (frame ≡ head ++ (be32 (length payload) ++ payload))
  unfolding sized pack_u32
  sized-some head payload frame h = (ground arith, ground arith)

  read-json : (j : J) → read_payload c json gzip (compress (dumps j)) ≡ some (some (as_dict c j))
  unfolding read_payload
  read-json j = rw (
    not_empty_bytes (compress (dumps j)) (c.compress-ne-nil (dumps j)),
    c.decompress-compress (dumps j),
    unzipped,
    c.loads-dumps j,
  )

  read-raw : (pcm : Bytes) → read_payload c no_serialization gzip (compress pcm) ≡ some none
  unfolding read_payload
  read-raw pcm =
      rw (
        not_empty_bytes (compress pcm) (c.compress-ne-nil pcm),
        c.decompress-compress pcm,
        unzipped,
      )

  -- A request with the JSON configuration, once it can be built, reads back as a frame with that
  -- configuration, no sequence number and no error code, that is not the last.
  pub parse-build_full_client_request :
      (params : J) {frame : Bytes}
      → build_full_client_request c params ≡ some frame
      → parse_asr_response c frame
        ≡ some (record {
          message_type = full_client_request;
          is_last = false;
          code = none;
          payload = some (as_dict c params);
          seq = none;
        })
  unfolding parse_asr_response answered seq_part header build_full_client_request
  parse-build_full_client_request params {frame = frame} h =
      let p = compress (dumps params) in
      let (fits, eq) = sized-some (header full_client_request no_sequence json gzip) p frame h in
      rw (
        eq,
        word-be32 (length p) p fits,
        drop-be32 (length p) p,
        take-all (length p) p (omega arith),
        read-json params,
      )

  -- A chunk of audio, once it can be built, reads back as a frame without a payload that is the last
  -- exactly if it was built as the last.
  pub parse-build_audio_request :
      (pcm : Bytes) (last : Bool) {frame : Bytes}
      → build_audio_request c pcm last ≡ some frame
      → parse_asr_response c frame
        ≡ some (record {
          message_type = audio_only_request;
          is_last = last;
          code = none;
          payload = none;
          seq = none;
        })
  unfolding parse_asr_response answered seq_part header build_audio_request
  parse-build_audio_request pcm true {frame = frame} h =
      let p = compress pcm in
      let (fits, eq) =
        sized-some (header audio_only_request neg_sequence no_serialization gzip) p frame h in
      rw (
        eq,
        word-be32 (length p) p fits,
        drop-be32 (length p) p,
        take-all (length p) p (omega arith),
        read-raw pcm,
      )
  parse-build_audio_request pcm false {frame = frame} h =
      let p = compress pcm in
      let (fits, eq) =
        sized-some (header audio_only_request no_sequence no_serialization gzip) p frame h in
      rw (
        eq,
        word-be32 (length p) p fits,
        drop-be32 (length p) p,
        take-all (length p) p (omega arith),
        read-raw pcm,
      )
