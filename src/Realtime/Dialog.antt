-- ===== src/Realtime/Dialog.antt =====
-- backend/realtime/doubao_realtime_protocol.py: the frames of the realtime dialog.
pub mod RoundTrip
use Prim.Native.Nat.{bit_and, bit_or}
use cyber_companion.Base.{
  ℕ, ◌+◌, ◌-◌, ◌*◌, ◌/◌, ◌^◌, Bool, true, false, not, ◌&&◌, ◌||◌, Option, none, some, List, [], ◌∷◌,
  ◌++◌, length, take, drop, leb, ltb, ◌==◌, if◌then◌else◌, is_some, ◌>>=◌,
}
use cyber_companion.Base.Bytes.{Bytes, pack_u32, word}
use cyber_companion.Base.Text.{Text, is_empty}
use cyber_companion.Realtime.Codec.{Codec, Unzipped, data_, os_error, failure, or_empty, as_dict}

abbrev pub full_client_request : ℕ
full_client_request = 0b0001

abbrev pub audio_only_request : ℕ
audio_only_request = 0b0010

abbrev pub full_server_response : ℕ
full_server_response = 0b1001

abbrev pub audio_only_response : ℕ
audio_only_response = 0b1011

abbrev pub server_error_response : ℕ
server_error_response = 0b1111

abbrev pub pos_sequence : ℕ
pos_sequence = 0b0001

abbrev pub msg_with_event : ℕ
msg_with_event = 0b0100

abbrev pub no_serialization : ℕ
no_serialization = 0

abbrev pub json : ℕ
json = 1

abbrev pub no_compression : ℕ
no_compression = 0

abbrev pub gzip : ℕ
gzip = 1

abbrev pub event_task_request : ℕ
event_task_request = 200

-- The four header bytes; `x << 4` is `x * 16`. The four arguments are below 16, as in every call.
unfoldable pub header : ℕ → ℕ → ℕ → ℕ → Bytes
header message_type flags serialization compression =
    bit_or (1 * 16) 1
    ∷ bit_or (message_type * 16) flags
    ∷ bit_or (serialization * 16) compression
    ∷ 0
    ∷ []

module _ (c : Codec) where
  open c use {J, dumps, loads, compress, decompress, encode, decode}

  -- `payload: dict | None`, or raw bytes.
  pub data Payload : Type 0 where
    dict : J → Payload
    raw : Bytes → Payload
    missing : Payload

  -- `json.dumps(payload or {})`: bytes cannot be dumped, unless there are none.
  json_body : Payload → Option Bytes
  json_body (dict j) = some (dumps (or_empty c j))
  json_body (raw []) = some (dumps c.empty_dict)
  json_body (raw (x ∷ b)) = none
  json_body missing = some (dumps c.empty_dict)

  raw_body : Payload → Bytes
  raw_body (dict j) = []
  raw_body (raw b) = b
  raw_body missing = []

  -- The body of a session event by its serialization and compression.
  session_body : Payload → ℕ → ℕ → Option Bytes
  unfolding json_body raw_body
  session_body payload serialization compression =
      if serialization == json
      then (do text ← json_body payload; some (if compression == gzip then compress text else text))
      else (let body = raw_body payload in
          some (if compression == gzip && not (is_empty body) then compress body else body))

  -- `none` is an exception of `struct.pack` or `json.dumps`.
  unfoldable pub build_connect_event : ℕ → Option J → Option Bytes
  unfolding header
  build_connect_event event_id payload = do
    let body = compress (dumps (elim payload [ none ↦ c.empty_dict | some j ↦ or_empty c j ]))
    event ← pack_u32 event_id
    size ← pack_u32 (length body)
    some (header full_client_request msg_with_event json gzip ++ (event ++ (size ++ body)))

  unfoldable pub build_session_event : ℕ → Text → Payload → ℕ → ℕ → ℕ → Option Bytes
  unfolding header session_body
  build_session_event event_id session_id payload message_type serialization compression = do
    let sid = encode session_id
    body ← session_body payload serialization compression
    event ← pack_u32 event_id
    sid_size ← pack_u32 (length sid)
    size ← pack_u32 (length body)
    some (
        header message_type msg_with_event serialization compression
        ++ (event ++ (sid_size ++ (sid ++ (size ++ body)))))

  unfoldable pub build_task_request : Text → Bytes → Option Bytes
  unfolding header
  build_task_request session_id pcm = do
    let body = compress pcm
    let sid = encode session_id
    event ← pack_u32 event_task_request
    sid_size ← pack_u32 (length sid)
    size ← pack_u32 (length body)
    some (
        header audio_only_request msg_with_event no_serialization gzip
        ++ (event ++ (sid_size ++ (sid ++ (size ++ body)))))

  pub record DoubaoDialogResponse : Type 0 where
    pub message_type : ℕ
    pub flags : ℕ
    pub serialization : ℕ
    pub compression : ℕ
    pub event : Option ℕ
    pub session_id : Option Text
    pub code : Option ℕ
    pub payload_bytes : Bytes
    pub payload_json : Option J

  -- What the body holds before it is unpacked. `body[offset:]` is carried along in place of the
  -- offset: a slice past the end is empty, and `offset + 4 <= len(body)` asks for four bytes of it.
  pub record Parts : Type 0 where
    pub event : Option ℕ
    pub session_id : Option Text
    pub code : Option ℕ
    pub payload_bytes : Bytes

  error_parts : Bytes → Parts
  error_parts body = record {
    event = none;
    session_id = none;
    code = some (word body);
    payload_bytes = take (word (drop 4 body)) (drop 8 body);
  }

  payload_part : Bytes → Bytes
  payload_part rest = if leb 4 (length rest) then take (word rest) (drop 4 rest) else []

  -- A signed size above 0, read from its unsigned bytes.
  is_positive : ℕ → Bool
  is_positive size = ltb 0 size && ltb size (2 ^ 31)

  session_part : ℕ → Bytes → Option Text × Bytes
  unfolding is_positive
  session_part message_type rest =
      if (message_type == full_server_response || message_type == audio_only_response)
        && leb 4 (length rest)
      then (let size = word rest in
          if is_positive size
          then (some (decode (take size (drop 4 rest))), drop size (drop 4 rest))
          else (none, drop 4 rest))
      else (none, rest)

  event_part : ℕ → Bytes → Option ℕ × Bytes
  event_part flags rest =
      if bit_and flags msg_with_event == 0 then (none, rest) else (some (word rest), drop 4 rest)

  normal_parts : ℕ → ℕ → Bytes → Parts
  unfolding event_part session_part payload_part
  normal_parts message_type flags body =
      let after_sequence = if bit_and flags pos_sequence == 0 then body else drop 4 body in
      let (event, after_event) = event_part flags after_sequence in
      let (session_id, after_session) = session_part message_type after_event in
      record {
        event = event;
        session_id = session_id;
        code = none;
        payload_bytes = payload_part after_session;
      }

  -- `gzip.decompress` under `except OSError: pass`; the outer `none` is any other exception.
  unzip : Bytes → Option Bytes
  unzip b = elim (decompress b) [ data_ d ↦ some d | os_error ↦ some b | failure ↦ none ]

  json_payload : ℕ → Bytes → Option (Option J)
  json_payload serialization b =
      if not (is_empty b) && serialization == json
      then (do decoded ← loads b; some (some (as_dict c decoded)))
      else some none

  -- The unpacking of the payload and the returned record.
  finish : ℕ → ℕ → ℕ → ℕ → Parts → Option DoubaoDialogResponse
  finish message_type flags serialization compression parts = do
    payload ←
        if not (is_empty parts.payload_bytes) && compression == gzip
        then unzip parts.payload_bytes
        else some parts.payload_bytes
    decoded ← json_payload serialization payload
    some (record {
      message_type = message_type;
      flags = flags;
      serialization = serialization;
      compression = compression;
      event = parts.event;
      session_id = parts.session_id;
      code = parts.code;
      payload_bytes = if serialization == json then [] else payload;
      payload_json = decoded;
    })

  body_parts : ℕ → ℕ → Bytes → Parts
  body_parts message_type flags body =
      if message_type == server_error_response
      then error_parts body
      else normal_parts message_type flags body

  -- `none` is an exception: a header that is too short, or data that gzip or JSON refuse.
  pub parse_response : Bytes → Option DoubaoDialogResponse
  parse_response (b0 ∷ b1 ∷ b2 ∷ b3 ∷ rest) =
      let body = drop (bit_and b0 0x0f * 4) (b0 ∷ b1 ∷ b2 ∷ b3 ∷ rest) in
      let message_type = b1 / 16 in
      let flags = bit_and b1 0x0f in
      finish message_type flags (b2 / 16) (bit_and b2 0x0f) (body_parts message_type flags body)
  parse_response _ = none
