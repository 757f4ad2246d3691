-- ===== src/Worker/Stub.antt =====
-- worker/worker_app/executor.py: `run_stub_task`, on the directories of the worker.
use delegate_implementation.Base.{
  Text, codes, List, [], ◌∷◌, ◌++◌, none, some, Bool, true, false, length, if◌then◌else◌,
}
use delegate_implementation.Platform.{Bytes}
use delegate_implementation.Models.{lit, num, texts, Detail}
use delegate_implementation.Worker.Directories.{
  Directories, tree_at, set_tree, makedirs, tree_or_empty, sorted, listdir, write_file,
}

-- What a task meets: the directory that `mkdtemp` makes, whether the result can be written, what
-- a text is in bytes, and the id of the transfer.
pub record Job : Type 0 where
  pub output_dir : Text
  pub can_write : Bool
  pub text_bytes : Detail → Bytes
  pub transfer_id : Text

-- What `run_stub_task` leaves: its log lines, the directories, and whether it returns.
pub record Ran : Type 0 where
  pub lines : List Detail
  pub dirs : Directories
  pub returns : Bool

-- The text of `result.txt`
unfoldable pub result_text : List Text → Detail
result_text entries =
    lit "Delegate POC stub execution completed successfully.\n"
    ∷ lit "Processed "
    ∷ num (length entries)
    ∷ lit " workspace entries: "
    ∷ texts entries
    ∷ lit "\n"
    ∷ []

unfoldable pub stub_lines : List Text → List Detail
stub_lines entries =
    (lit "workspace contains " ∷ num (length entries) ∷ lit " entries: " ∷ texts entries ∷ [])
    ∷ (lit "step " ∷ num 1 ∷ lit "/3 running..." ∷ [])
    ∷ (lit "step " ∷ num 2 ∷ lit "/3 running..." ∷ [])
    ∷ (lit "step " ∷ num 3 ∷ lit "/3 running..." ∷ [])
    ∷ []

unfoldable pub run_stub_task : Job → Text → Text → Directories → Ran
unfolding makedirs tree_or_empty sorted listdir result_text stub_lines write_file
run_stub_task job workspace_dir output_dir ds =
    let made = makedirs output_dir ds in
    elim (tree_at workspace_dir made) [
      | none ↦ record { lines = []; dirs = made; returns = false }
      | some workspace ↦
          let entries = sorted (listdir workspace) in
          if job.can_write
          then record {
            lines = stub_lines entries ++ (lit "execution complete" ∷ []) ∷ [];
            dirs =
                set_tree output_dir
                  (write_file (codes "result.txt") (job.text_bytes (result_text entries))
                    (tree_or_empty output_dir made))
                  made;
            returns = true;
          }
          else record { lines = stub_lines entries; dirs = made; returns = false }
    ]
