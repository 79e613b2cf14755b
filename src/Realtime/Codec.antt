-- ===== src/Realtime/Codec.antt =====
-- What the wire protocols take from the standard library: gzip, JSON and UTF-8.
use cyber_companion.Base.{◌≡◌, ◌≢◌, Bool, Option, some, [], if◌then◌else◌}
use cyber_companion.Base.Bytes.{Bytes}
use cyber_companion.Base.Text.{Text}

-- `gzip.decompress`: `os_error` is the BadGzipFile of data that is no gzip file, `failure` any other
-- exception (a stream that is cut off or corrupt).
pub data Unzipped : Type 0 where
  data_ : Bytes → Unzipped
  os_error : Unzipped
  failure : Unzipped

pub record Codec : Type 1 where
  -- the Python values that json reads and writes
  pub J : Type 0
  pub is_dict : J → Bool
  pub empty_dict : J
  -- `bool(j)`
  pub is_truthy : J → Bool
  -- `{"value": j}`
  pub value_dict : J → J
  -- `json.dumps(j).encode("utf-8")`
  pub dumps : J → Bytes
  -- `json.loads(b.decode("utf-8"))`; `none` is any exception of the two
  pub loads : Bytes → Option J
  pub compress : Bytes → Bytes
  pub decompress : Bytes → Unzipped
  pub encode : Text → Bytes
  -- `b.decode("utf-8", errors="replace")`
  pub decode : Bytes → Text
  pub loads-dumps : (j : J) → loads (dumps j) ≡ some j
  pub dumps-ne-nil : (j : J) → dumps j ≢ []
  pub decompress-compress : (b : Bytes) → decompress (compress b) ≡ data_ b
  pub compress-ne-nil : (b : Bytes) → compress b ≢ []
  pub decode-encode : (t : Text) → decode (encode t) ≡ t

module _ (c : Codec) where
  open c use {J, is_dict, empty_dict, is_truthy, value_dict}

  -- `j or {}`
  abbrev pub or_empty : J → J
  or_empty j = if is_truthy j then j else empty_dict

  -- `decoded if isinstance(decoded, dict) else {"value": decoded}`
  unfoldable pub as_dict : J → J
  as_dict decoded = if is_dict decoded then decoded else value_dict decoded
