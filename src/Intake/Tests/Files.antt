-- ===== src/Intake/Tests/Files.antt =====
-- The local object storage at a concrete input.
use Prim.Native.String.{◌++◌}
use doc_lens.Base.{◌>>◌, pure, String, ◌≡◌, ◌≢◌, true, [], ◌∷◌, ok}
use doc_lens.Intake.Storage.{Library, LocalObjectStorage, local_put, is_safe_char}
use doc_lens.Intake.Storage.Names.{all_chars, is_plain_char, local_put_stays_inside}

abbrev join_paths : String → String → String
join_paths dir name = dir ++ "/" ++ name

abbrev a_library : Library
a_library = record {
  base = λ path. path;
  filepath_join = join_paths;
  path_escape = λ text. text;
  sha256 = λ bytes. bytes;
  utf8 = λ text. 10 ∷ 11 ∷ [];
}

abbrev local_files : LocalObjectStorage Unit
local_files = record {
  files = record {
    mkdir_all = λ dir w. (ok tt, w);
    write_file = λ path content w. (ok tt, w);
    size_of = λ path w. (ok 3, w);
    clock = λ w. 1;
  };
  root = "data";
}

local_put_stays_inside_example :
    (dir : String) × (segment : String) × (name : String) × (local_put a_library local_files "org_1"
        "doc_1" "..a/b.pdf" "application/pdf"
        (1 ∷ [])
      ≡ (local_files.files.mkdir_all (join_paths "data" dir)
          >> (local_files.files.write_file
                (join_paths (join_paths "data" dir) (segment ++ "_" ++ name))
                (1 ∷ [])
              >> pure (join_paths (join_paths "data" dir) (segment ++ "_" ++ name)))))
    × (all_chars is_plain_char dir ≡ true)
    × (all_chars is_plain_char segment ≡ true)
    × (all_chars is_safe_char name ≡ true)
    × (name ≢ "")
local_put_stays_inside_example =
    local_put_stays_inside a_library local_files "org_1" "doc_1" "..a/b.pdf" "application/pdf"
      (1 ∷ [])
