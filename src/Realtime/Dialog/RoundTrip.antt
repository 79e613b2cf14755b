-- ===== src/Realtime/Dialog/RoundTrip.antt =====
-- backend/realtime/doubao_realtime_protocol.py: building a frame and parsing it again.
use cyber_companion.Base.{
  ℕ, ◌^◌, ◌<◌, ◌≡◌, ◌≢◌, refl, ap, ◌∙◌, false, Option, none, some, [], ◌∷◌, ◌++◌, ◌⊎◌, inl, inr,
  length, arith, take-all, take-append, drop-append,
}
use cyber_companion.Base.Bytes.{Bytes, pack_u32, be32, word-be32, drop-be32, fits-be32}
use cyber_companion.Base.Text.{Text, is_empty}
use cyber_companion.Realtime.Codec.{Codec, or_empty, as_dict}
use cyber_companion.Realtime.Dialog.{
  full_server_response, audio_only_response, msg_with_event, json, gzip, no_serialization, header,
  Payload, dict, raw, json_body, raw_body, body_parts, finish, session_body, build_session_event,
  DoubaoDialogResponse, payload_part, session_part, event_part, normal_parts, unzip, json_payload,
  parse_response,
}

not_empty : (b : Bytes) → b ≢ [] → is_empty b ≡ false
unfolding is_empty
not_empty [] h = absurd (h refl)
not_empty (x ∷ b) h = refl

module _ (c : Codec) where
  open c use {J, dumps, loads, compress, decompress, encode, decode}

  payload_part-be32 : (p : Bytes) → length p < 2 ^ 32 → payload_part c (be32 (length p) ++ p) ≡ p
  unfolding payload_part
  payload_part-be32 p h =
      rw (fits-be32 (length p) p, word-be32 (length p) p h, drop-be32 (length p) p)
        (take-all (length p) p (omega arith))

  -- The two types of message that carry a session id.
  abbrev Carries : ℕ → Type 0
  Carries m = (m ≡ full_server_response) ⊎ (m ≡ audio_only_response)

  session_part-be32 :
      (m : ℕ) (s rest : Bytes)
      → Carries m
      → 0 < length s
      → length s < 2 ^ 31
      → session_part c m (be32 (length s) ++ (s ++ rest)) ≡ (some (decode s), rest)
  unfolding session_part
  session_part-be32 m s rest k low high = ground (
    arith,
    fits-be32 (length s) (s ++ rest),
    word-be32 (length s) (s ++ rest),
    drop-be32 (length s) (s ++ rest),
    take-append (length s) s rest refl,
    drop-append (length s) s rest refl,
  )

  -- The body that follows the header of a session event.
  abbrev session_frame : ℕ → Bytes → Bytes → Bytes
  session_frame e s p = be32 e ++ (be32 (length s) ++ (s ++ (be32 (length p) ++ p)))

  normal_parts-session_frame :
      (m e : ℕ) (s p : Bytes)
      → Carries m
      → e < 2 ^ 32
      → 0 < length s
      → length s < 2 ^ 31
      → length p < 2 ^ 32
      → normal_parts c m msg_with_event (session_frame e s p)
        ≡ record { event = some e; session_id = some (decode s); code = none; payload_bytes = p }
  unfolding normal_parts event_part
  normal_parts-session_frame m e s p k fe low high fp =
      let tail = be32 (length s) ++ (s ++ (be32 (length p) ++ p)) in
      rw (
        word-be32 e tail fe,
        drop-be32 e tail,
        session_part-be32 m s (be32 (length p) ++ p) k low high,
        payload_part-be32 p fp,
      )

  -- What a frame that could be built looks like.
  built_frame :
      (m e serialization compression : ℕ) (session_id : Text) (payload : Payload c) (body : Bytes)
      {frame : Bytes}
      → session_body c payload serialization compression ≡ some body
      → build_session_event c e session_id payload m serialization compression ≡ some frame
      → (e < 2 ^ 32)
        × (length body < 2 ^ 32)
        × (frame
            ≡ header m msg_with_event serialization compression
              ++ session_frame e (encode session_id) body)
  unfolding build_session_event pack_u32
  built_frame m e serialization compression session_id payload body h built =
      (ground arith, ground arith, ground arith)

  unzip-compress : (b : Bytes) → unzip c (compress b) ≡ some b
  unfolding unzip
  unzip-compress b = rw (unzip, c.decompress-compress b)

  json_payload-dumps : (j : J) → json_payload c json (dumps j) ≡ some (some (as_dict c j))
  unfolding json_payload
  json_payload-dumps j = rw (not_empty (dumps j) (c.dumps-ne-nil j), c.loads-dumps j)

  finish-json :
      (m : ℕ) (j : J) (event : Option ℕ) (session_id : Option Text) (code : Option ℕ)
      → finish c m msg_with_event json gzip (record {
        event = event;
        session_id = session_id;
        code = code;
        payload_bytes = compress (dumps j);
      })
        ≡ some (record {
          message_type = m;
          flags = msg_with_event;
          serialization = json;
          compression = gzip;
          event = event;
          session_id = session_id;
          code = code;
          payload_bytes = [];
          payload_json = some (as_dict c j);
        })
  unfolding finish
  finish-json m j event session_id code = rw (
    not_empty (compress (dumps j)) (c.compress-ne-nil (dumps j)),
    unzip-compress (dumps j),
    json_payload-dumps j,
  )

  finish-raw :
      (m : ℕ) (pcm : Bytes) (event : Option ℕ) (session_id : Option Text) (code : Option ℕ)
      → finish c m msg_with_event no_serialization gzip (record {
        event = event;
        session_id = session_id;
        code = code;
        payload_bytes = compress pcm;
      })
        ≡ some (record {
          message_type = m;
          flags = msg_with_event;
          serialization = no_serialization;
          compression = gzip;
          event = event;
          session_id = session_id;
          code = code;
          payload_bytes = pcm;
          payload_json = none;
        })
  unfolding finish json_payload
  finish-raw m pcm event session_id code =
      rw (not_empty (compress pcm) (c.compress-ne-nil pcm), unzip-compress pcm) (ground arith)

  -- The header of an event names its type, and the body starts after it.
  parse-header :
      (m serialization : ℕ) (body : Bytes)
      → Carries m
      → (serialization ≡ json) ⊎ (serialization ≡ no_serialization)
      → parse_response c (header m msg_with_event serialization gzip ++ body)
        ≡ finish c m msg_with_event serialization gzip (normal_parts c m msg_with_event body)
  unfolding parse_response header body_parts
  parse-header m s body (inl p) (inl q) = rw (p, q)
  parse-header m s body (inl p) (inr q) = rw (p, q)
  parse-header m s body (inr p) (inl q) = rw (p, q)
  parse-header m s body (inr p) (inr q) = rw (p, q)

  -- A JSON session event that the server's side of the protocol would send (a full or an audio
  -- response) reads back with its event, its session id and its payload (an empty dict for a falsy
  -- one), whenever it can be built,
  -- the session id is not empty and below 2 GiB, and both sides use gzip.
  pub parse-build_session_json :
      (m e : ℕ) (session_id : Text) (j : J) {frame : Bytes}
      → (m ≡ full_server_response) ⊎ (m ≡ audio_only_response)
      → 0 < length (encode session_id)
      → length (encode session_id) < 2 ^ 31
      → build_session_event c e session_id (dict j) m json gzip ≡ some frame
      → parse_response c frame
        ≡ some (record {
          message_type = m;
          flags = msg_with_event;
          serialization = json;
          compression = gzip;
          event = some e;
          session_id = some session_id;
          code = none;
          payload_bytes = [];
          payload_json = some (as_dict c (or_empty c j));
        })
  parse-build_session_json m e session_id j {frame} k low high built =
      let facts =
        built_frame m e json gzip session_id (dict j) (compress (dumps (or_empty c j)))
          (unfold session_body json_body in refl) built in
      let body = session_frame e (encode session_id) (compress (dumps (or_empty c j))) in
      rw facts.2 (
        parse-header m json body k (inl refl)
        ∙ ap (finish c m msg_with_event json gzip) (
            normal_parts-session_frame m e (encode session_id) (compress (dumps (or_empty c j))) k
              facts.0 low high facts.1)
        ∙ finish-json m (or_empty c j) (some e) (some (decode (encode session_id))) none
        ∙ named (c.decode-encode session_id))
    where
      named :
          {t u : Text}
          → t ≡ u
          → ◌≡◌ {A = Option (DoubaoDialogResponse c)}
              (some (record {
                message_type = m;
                flags = msg_with_event;
                serialization = json;
                compression = gzip;
                event = some e;
                session_id = some t;
                code = none;
                payload_bytes = [];
                payload_json = some (as_dict c (or_empty c j));
              }))
              (some (record {
                message_type = m;
                flags = msg_with_event;
                serialization = json;
                compression = gzip;
                event = some e;
                session_id = some u;
                code = none;
                payload_bytes = [];
                payload_json = some (as_dict c (or_empty c j));
              }))
      named q = rw q

  -- A full or audio response that carries gzip-compressed PCM with no serialization reads back with
  -- its type, its event, its session id and the PCM, and no JSON, whenever it can be built, the PCM is
  -- not empty, and the session id is not empty and below 2 GiB.
  pub parse-build_session_audio :
      (m e : ℕ) (session_id : Text) (pcm : Bytes) {frame : Bytes}
      → (m ≡ full_server_response) ⊎ (m ≡ audio_only_response)
      → pcm ≢ []
      → 0 < length (encode session_id)
      → length (encode session_id) < 2 ^ 31
      → build_session_event c e session_id (raw pcm) m no_serialization gzip ≡ some frame
      → (r : DoubaoDialogResponse c) × (parse_response c frame ≡ some r)
        × (r.message_type ≡ m)
        × (r.event ≡ some e)
        × (r.session_id ≡ some session_id)
        × (r.payload_bytes ≡ pcm)
        × (r.payload_json ≡ none)
  parse-build_session_audio m e session_id pcm {frame} k full low high built =
      let facts =
        built_frame m e no_serialization gzip session_id (raw pcm) (compress pcm)
          (unfold session_body raw_body in rw (not_empty pcm full)) built in
      let body = session_frame e (encode session_id) (compress pcm) in
      (
        record {
          message_type = m;
          flags = msg_with_event;
          serialization = no_serialization;
          compression = gzip;
          event = some e;
          session_id = some (decode (encode session_id));
          code = none;
          payload_bytes = pcm;
          payload_json = none;
        },
        rw facts.2 (
            parse-header m no_serialization body k (inr refl)
            ∙ ap (finish c m msg_with_event no_serialization gzip) (
                normal_parts-session_frame m e (encode session_id) (compress pcm) k facts.0 low high
                  facts.1)
            ∙ finish-raw m pcm (some e) (some (decode (encode session_id))) none),
        refl,
        refl,
        ap some (c.decode-encode session_id),
        refl,
        refl,
      )
