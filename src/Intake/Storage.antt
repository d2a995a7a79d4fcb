-- ===== src/Intake/Storage.antt =====
-- Object storage of doclens-document-intake-service: `LocalObjectStorage` and the sanitising of names of
-- internal/store/store.go, `R2ObjectStorage` of internal/store/r2.go. The file system, the S3
-- client, SHA-256, `filepath` and `url.PathEscape` are parameters.
pub mod Names
use Prim.Native.Char.{Char, code}
use Prim.Native.String
use Prim.Native.String.{◌++◌}
use doc_lens.Base.{
  ℕ, zero, suc, ◌+◌, String, Bool, true, false, ◌&&◌, ◌||◌, ◌==◌, string_eq, List, ℤ, pos, Option,
  some, none, leb, eqb, if◌then◌else◌, trim_space, hex, Result, ok, err, Exec, pure, gets, ◌>>=◌,
  ◌>>◌,
}
use doc_lens.Intake.Types.{ObjectHead, Presigned, DirectUploadStorage, ObjectStorage}

-- `strings.TrimLeft` and `strings.TrimRight` at a full stop.
unfoldable pub trim_dots_left : String → String
trim_dots_left String.[] = String.[]
trim_dots_left (String.◌∷◌ c s) =
    let rest = trim_dots_left s in if eqb (code c) b'.' then rest else String.◌∷◌ c s

abbrev pub before_dots : Char → String → String
before_dots c String.[] = if eqb (code c) b'.' then String.[] else String.◌∷◌ c String.[]
before_dots c (String.◌∷◌ d s) = String.◌∷◌ c (String.◌∷◌ d s)

unfoldable pub trim_dots_right : String → String
trim_dots_right String.[] = String.[]
trim_dots_right (String.◌∷◌ c s) = before_dots c (trim_dots_right s)

unfoldable pub is_safe_char : ℕ → Bool
is_safe_char n =
    (leb b'a' n && leb n b'z')
    || (leb b'A' n && leb n b'Z')
    || (leb b'0' n && leb n b'9')
    || eqb n b'-'
    || eqb n b'_'
    || eqb n b'.'
    || eqb n 32

-- The `strings.Map`.
unfoldable pub map_safe : String → String
map_safe String.[] = String.[]
map_safe (String.◌∷◌ c s) =
    String.◌∷◌ (if is_safe_char (code c) then c else String.char_at "_" 0) (map_safe s)

abbrev pub or_default : String → String
or_default base = if base == "" then "upload.bin" else base

unfoldable pub sanitize_filename : (String → String) → String → String
sanitize_filename base value =
    let trimmed = trim_space value in
    let name = trim_dots_right (trim_dots_left (base trimmed)) in
    if trimmed == "" then "" else if name == "" then "upload.bin" else or_default (map_safe name)

-- `hash[:8]`
unfoldable pub first_bytes : ℕ → List ℕ → List ℕ
first_bytes n List.[] = List.[]
first_bytes n (List.◌∷◌ b bs) = elim n [ zero ↦ List.[] | suc m ↦ List.◌∷◌ b (first_bytes m bs) ]

-- What the package takes from Go's libraries. `utf8` are a text's bytes.
pub record Library : Type 0 where
  pub base : String → String
  pub filepath_join : String → String → String
  pub path_escape : String → String
  pub sha256 : List ℕ → List ℕ
  pub utf8 : String → List ℕ

unfoldable pub sanitize_segment : Library → String → String
sanitize_segment l value =
    let clean = trim_space value in
    if clean == "" then "unknown" else hex (first_bytes 8 (l.sha256 (l.utf8 clean)))

-- `os.MkdirAll`, `os.WriteFile`, `os.Stat` and `time.Now`.
pub record FileSystem (W : Type 0) : Type 0 where
  pub mkdir_all : String → Exec W String Unit
  pub write_file : String → List ℕ → Exec W String Unit
  pub size_of : String → Exec W String ℕ
  pub clock : W → ℕ

pub record LocalObjectStorage (W : Type 0) : Type 0 where
  pub files : FileSystem W
  pub root : String

module _ {W : Type 0} (l : Library) (s : LocalObjectStorage W) where
  unfoldable pub organization_dir : String → String
  organization_dir organization_id = l.filepath_join s.root (sanitize_segment l organization_id)

  unfoldable pub local_put : String → String → String → String → List ℕ → Exec W String String
  local_put organization_id document_id filename content_type content = do
    s.files.mkdir_all (organization_dir organization_id)
    let safe_name = or_default (sanitize_filename l.base filename) in
        let storage_ref =
          l.filepath_join (organization_dir organization_id)
            (sanitize_segment l document_id ++ "_" ++ safe_name) in
        s.files.write_file storage_ref content >> pure storage_ref

  unfoldable pub local_presign_put :
      String → String → String → String → String → ℕ → Exec W String Presigned
  local_presign_put organization_id document_id upload_id filename content_type expires = do
    s.files.mkdir_all (organization_dir organization_id)
    now ← gets s.files.clock
    let safe_name = or_default (sanitize_filename l.base filename) in
        let ref = l.filepath_join (organization_dir organization_id) (
          sanitize_segment l document_id
          ++ "_"
          ++ sanitize_segment l upload_id
          ++ "_"
          ++ safe_name) in
        pure (record { url = "file://" ++ ref; storage_ref = ref; expires_at = now + expires })

  unfoldable pub local_head : String → Exec W String ObjectHead
  local_head storage_ref = do
    size ← s.files.size_of storage_ref
    pure (record { size_bytes = pos size; checksum = "" })

  abbrev pub local_storage : ObjectStorage W
  local_storage = record {
    put = local_put;
    direct = some (record { presign_put = local_presign_put; head = local_head });
  }

-- `s3.Client` and its presigner, at one bucket. A head is the length and the checksum, if given.
pub record S3Client (W : Type 0) : Type 0 where
  pub put_object : String → String → List ℕ → String → Exec W String Unit
  pub presign_put_object : String → String → String → ℕ → Exec W String String
  pub head_object : String → String → Exec W String (Option ℤ × Option String)
  pub clock : W → ℕ

pub record R2ObjectStorage (W : Type 0) : Type 0 where
  pub client : S3Client W
  pub bucket : String

-- `NewR2ObjectStorage`; a client that is `nil` is `none`.
unfoldable pub new_r2_object_storage :
    {W : Type 0} → Option (S3Client W) → String → Result String (R2ObjectStorage W)
new_r2_object_storage none bucket = err "r2 client is required"
new_r2_object_storage (some client) bucket =
    if trim_space bucket == ""
    then err "r2 bucket is required"
    else ok (record { client = client; bucket = bucket })

-- The key's parts, escaped.
unfoldable pub key_of : Library → String → String → String → String → String
key_of l organization_id document_id name filename =
    "organizations/"
    ++ l.path_escape organization_id
    ++ "/documents/"
    ++ l.path_escape document_id
    ++ "/uploads/"
    ++ name
    ++ "-"
    ++ l.path_escape (sanitize_filename l.base filename)

unfoldable pub object_key : Library → String → String → String → String → String
object_key l organization_id document_id upload_id filename =
    key_of l organization_id document_id (l.path_escape upload_id) filename

unfoldable pub wrap_error : {W A : Type 0} → String → Exec W String A → Exec W String A
wrap_error prefix m w =
    let (r, w') = m w in (elim r [ ok a ↦ ok a | err e ↦ err (prefix ++ e) ], w')

abbrev pub or_zero : Option ℤ → ℤ
or_zero none = pos 0
or_zero (some n) = n

abbrev pub or_empty : Option String → String
or_empty none = ""
or_empty (some text) = text

module _ {W : Type 0} (l : Library) (s : R2ObjectStorage W) where
  unfoldable pub r2_put : String → String → String → String → List ℕ → Exec W String String
  r2_put organization_id document_id filename content_type content =
      let key =
        key_of l organization_id document_id (hex (first_bytes 8 (l.sha256 content))) filename in
      wrap_error "put object: " (s.client.put_object s.bucket key content content_type) >> pure key

  unfoldable pub r2_presign_put :
      String → String → String → String → String → ℕ → Exec W String Presigned
  r2_presign_put organization_id document_id upload_id filename content_type expires = do
    url ← wrap_error "presign upload: " (
        s.client.presign_put_object s.bucket
          (object_key l organization_id document_id upload_id filename) content_type expires)
    now ← gets s.client.clock
    pure (record {
      url = url;
      storage_ref = object_key l organization_id document_id upload_id filename;
      expires_at = now + expires;
    })

  unfoldable pub r2_head : String → Exec W String ObjectHead
  r2_head storage_ref = do
    found ← wrap_error "head object: " (s.client.head_object s.bucket storage_ref)
    pure (record { size_bytes = or_zero found.0; checksum = or_empty found.1 })

  abbrev pub r2_storage : ObjectStorage W
  r2_storage = record {
    put = r2_put;
    direct = some (record { presign_put = r2_presign_put; head = r2_head });
  }
