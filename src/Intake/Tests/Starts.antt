-- ===== src/Intake/Tests/Starts.antt =====
-- The start of the document intake service at a concrete environment.
use doc_lens.Base.{
  ◌≡◌, refl, false, not, ◌&&◌, ◌||◌, [], none, ok, ◌==◌, string_eq, if◌then◌else◌, trim_space,
}
use doc_lens.Env.{Env, Parsers}
use doc_lens.Intake.Storage.{S3Client}
use doc_lens.Intake.Config.{load}
use doc_lens.Intake.Startup.{External, start}
use doc_lens.Intake.Startup.Starts.{is_ok, start_ok_iff}

abbrev no_parsers : Parsers
no_parsers = record {
  atoi = λ text. none;
  parse_int = λ text. none;
  parse_float = λ text. none;
  parse_bool = λ text. none;
  parse_duration = λ text. none;
}

-- R2 without its keys.
abbrev half_configured : Env
half_configured key = if key == "R2_ENDPOINT" then "https://r2" else ""

abbrev a_client : S3Client Unit
a_client = record {
  put_object = λ bucket key content kind w. (ok tt, w);
  presign_put_object = λ bucket key kind expires w. (ok key, w);
  head_object = λ bucket key w. (ok (none, none), w);
  clock = λ w. 0;
}

abbrev all_open : External Unit
all_open = record { fails = λ r. false; client = a_client }

start_ok_iff_example : is_ok (start all_open (load no_parsers half_configured) []).0 ≡ (
    (trim_space "https://r2" == "" && trim_space "" == ""
      || (not (trim_space "https://r2" == "")
          && not (trim_space "" == "")
          && not (trim_space "" == "")
          && not (trim_space "" == "")))
    && (trim_space "" == "" || not (trim_space "" == "")))
start_ok_iff_example = start_ok_iff all_open (λ r. refl) no_parsers half_configured []
