-- ===== src/Storage/Environments/Tests.antt =====
-- An environment with a secret, put and read.
use auk.Base.{true, [], ◌∷◌}
use auk.Base.Text.{codes}
use auk.Core.Model.{Environment}
use auk.Storage.Environments.{Files, Failures}
use auk.Storage.Environments.Blank.{HasBlankFiles, put, perform_all, perform_all-HasBlankFiles}

abbrev faultless : Failures
faultless = record {
  writes_file = true;
  removes_file = true;
  sets_secret = λ a. true;
  deletes_secret = λ a. true;
  gets_secret = λ a. true;
}

abbrev staging : Environment
staging = record {
  id = codes "e";
  workspace_id = codes "w";
  secrets = codes "key" ∷ [];
  variables = record { key = codes "key"; value = codes "plain"; enabled = true } ∷ [];
}

abbrev no_files : Files
no_files = record { environments = []; disk = []; keychain = [] }

perform_all-HasBlankFiles_example :
    HasBlankFiles
      (perform_all (put faultless staging ((codes "key", codes "s3") ∷ []) ∷ []) no_files).disk
perform_all-HasBlankFiles_example =
    perform_all-HasBlankFiles (put faultless staging ((codes "key", codes "s3") ∷ []) ∷ []) no_files
      tt
