-- ===== src/Intake/Storage/Names.antt =====
-- Where `LocalObjectStorage` of internal/store/store.go puts an object.
use Prim.Native.Char.{code}
use Prim.Native.String
use Prim.Native.String.{◌++◌}
use Prim.Native.Nat.{◌/◌, ◌%◌}
use doc_lens.Base.{
  ℕ, String, Bool, true, ◌&&◌, ◌||◌, ◌≡◌, ◌≢◌, refl, sym, ◌∙◌, inl, inr, List, leb, ◌==◌, string_eq,
  eq_iff, differ, trim_space, hex, arith, pure, ◌>>=◌, ◌>>◌, Bool-cases, passes_to, passes_below,
}
use doc_lens.Intake.Storage.{
  trim_dots_left, trim_dots_right, is_safe_char, map_safe, or_default, sanitize_filename,
  first_bytes, Library, sanitize_segment, LocalObjectStorage, organization_dir, local_put,
}

unfoldable pub all_chars : (ℕ → Bool) → String → Bool
all_chars test String.[] = true
all_chars test (String.◌∷◌ c s) = test (code c) && all_chars test s

-- Small letters and digits.
abbrev pub is_plain_char : ℕ → Bool
is_plain_char n = (leb b'a' n && leb n b'z') || (leb b'0' n && leb n b'9')

underscore_safe : is_safe_char (code (String.char_at "_" 0)) ≡ true
unfolding is_safe_char
underscore_safe = refl

map_safe_safe : (s : String) → all_chars is_safe_char (map_safe s) ≡ true
unfolding all_chars map_safe
map_safe_safe String.[] = refl
map_safe_safe (String.◌∷◌ c s) = elim (Bool-cases (is_safe_char (code c))) [
  | inl safe ↦ rw safe (rw safe (map_safe_safe s))
  | inr other ↦ rw other (ground (arith, map_safe_safe s, underscore_safe))
]

upload_bin_safe : all_chars is_safe_char "upload.bin" ≡ true
unfolding all_chars is_safe_char
upload_bin_safe = refl

empty_safe : all_chars is_safe_char "" ≡ true
unfolding all_chars
empty_safe = refl

-- A name is safe whatever the file was called and whatever `filepath.Base` makes of it.
sanitize_filename_safe :
    (base : String → String) (value : String)
    → all_chars is_safe_char (sanitize_filename base value) ≡ true
unfolding sanitize_filename
sanitize_filename_safe base value = ground (
  arith,
  map_safe_safe (trim_dots_right (trim_dots_left (base (trim_space value)))),
  upload_bin_safe,
  empty_safe,
)

or_default_safe :
    (s : String) → all_chars is_safe_char s ≡ true → all_chars is_safe_char (or_default s) ≡ true
or_default_safe s h = ground (arith, h, upload_bin_safe)

or_default_nonempty : (s : String) → or_default s ≢ ""
or_default_nonempty s e = elim (Bool-cases (s == "")) [
  | inl empty ↦ differ "upload.bin" "" refl (sym (rw empty refl) ∙ e)
  | inr full ↦ ground (arith, full, eq_iff s "")
]

digits_plain : passes_to (λ k. is_plain_char (code (String.char_at "0123456789abcdef" k))) 16 ≡ true
unfolding passes_to
digits_plain = refl

hex_plain : (bs : List ℕ) → all_chars is_plain_char (hex bs) ≡ true
unfolding all_chars hex
hex_plain List.[] = refl
hex_plain (List.◌∷◌ b bs) = ground (
  arith,
  hex_plain bs,
  passes_below _ 16 (b / 16 % 16) (omega arith) digits_plain,
  passes_below _ 16 (b % 16) (omega arith) digits_plain,
)

unknown_plain : all_chars is_plain_char "unknown" ≡ true
unfolding all_chars
unknown_plain = refl

sanitize_segment_plain :
    (l : Library) (value : String) → all_chars is_plain_char (sanitize_segment l value) ≡ true
unfolding sanitize_segment
sanitize_segment_plain l value =
    ground (arith, unknown_plain, hex_plain (first_bytes 8 (l.sha256 (l.utf8 (trim_space value)))))

-- `Put` of the local storage makes a directory under the root, writes the content to a file in it and
-- returns that file, and does nothing else: the directory's name consists of small letters and
-- digits, the file's of such a text, an underscore and a nonempty name without path separators, of
-- safe characters only, whatever the ids and the filename are.
pub local_put_stays_inside :
    {W : Type 0} (l : Library) (s : LocalObjectStorage W)
    (organization_id document_id filename content_type : String) (content : List ℕ)
    → (dir : String) × (segment : String) × (name : String) × (local_put l s organization_id
          document_id filename content_type content
        ≡ (s.files.mkdir_all (l.filepath_join s.root dir)
            >> (s.files.write_file
                  (l.filepath_join (l.filepath_join s.root dir) (segment ++ "_" ++ name))
                  content
                >> pure (l.filepath_join (l.filepath_join s.root dir) (segment ++ "_" ++ name)))))
      × (all_chars is_plain_char dir ≡ true)
      × (all_chars is_plain_char segment ≡ true)
      × (all_chars is_safe_char name ≡ true)
      × (name ≢ "")
unfolding local_put organization_dir ◌>>=◌
local_put_stays_inside l s organization_id document_id filename content_type content = (
  sanitize_segment l organization_id,
  sanitize_segment l document_id,
  or_default (sanitize_filename l.base filename),
  refl,
  sanitize_segment_plain l organization_id,
  sanitize_segment_plain l document_id,
  or_default_safe _ (sanitize_filename_safe l.base filename),
  or_default_nonempty (sanitize_filename l.base filename),
)
