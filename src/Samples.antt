-- ===== src/Samples.antt =====
-- A platform, a file system and rows on which the definitions run and the theorems are applied.
-- The encodings are toys: they satisfy the laws of the platform and nothing more is asked of them.
pub mod Server
pub mod Bundle
pub mod Pem
pub mod Json
use delegate_implementation.Base.{
  ℤ, pos, Text, codes, [], ◌∷◌, ◌++◌, Option, none, some, true, refl,
}
use delegate_implementation.Platform.{Platform}
use delegate_implementation.Workspace.{Os}
use delegate_implementation.Samples.Bundle.{tree, zipfile}
use delegate_implementation.Models.{Delegate, active, Execution, queued, Db}
use delegate_implementation.Dispatcher.World.{World}

abbrev pub read_int : Text → Option ℤ
read_int [] = none
read_int (n ∷ []) = some (pos n)
read_int (n ∷ m ∷ ms) = none

-- Every text but the empty one is a UUID.
abbrev pub read_uuid : Text → Option Text
read_uuid [] = none
read_uuid (c ∷ cs) = some (c ∷ cs)

abbrev pub platform : Platform
platform = record {
  sha256_hex = λ content. content;
  b64encode = λ content. content;
  b64decode = λ text. some text;
  str_int = λ n. n ∷ [];
  int_str = read_int;
  to_uuid = read_uuid;
  b64decode-b64encode = λ content. refl;
  int_str-str_int = λ n. refl;
}

-- A path is its text; every file exists.
abbrev pub os : Os
os = record {
  join = λ a b. a ++ b;
  normpath = λ a. a;
  realpath = λ a. codes "root" ∷ [];
  isfile = λ a. true;
  isdir = λ a. true;
  abspath = λ a. a;
  tree = λ a. tree;
  content = λ a. 7 ∷ [];
  zipfile = zipfile;
}

abbrev pub delegate : Delegate
delegate = record {
  id = codes "d";
  tenant_id = codes "t";
  name = codes "vm";
  queue = codes "default";
  concurrency = pos 1;
  cert_serial = codes "1f";
  cert_pem = [];
  cert_expires_at = 100;
  status = active;
}

abbrev pub execution : Execution
execution = record {
  execution_id = codes "e";
  tenant_id = codes "t";
  delegate_id = some (codes "d");
  workspace_fixture = codes "sample";
  status = queued;
  transfer_id = [];
  transfer_attempts = 0;
  output_path = [];
  output_checksum = [];
}

abbrev pub db : Db
db = record {
  tokens = [];
  delegates = delegate ∷ [];
  executions = execution ∷ [];
  logs = [];
  audits = [];
}

abbrev pub world : World
world = record { db = db; sent = []; deleted = []; files = [] }
