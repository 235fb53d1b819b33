-- ===== src/Tests/Stores.antt =====
-- Runs of the execution store and of the approval gate.
use terragraph.Prelude.{
  ◌++◌, ℕ, ◌≡◌, inl, inr, refl, arith, true, false, Str, bytes, List, [], ◌∷◌, some, str_eq, lookup,
  insert, Bool-cases, sym, has_prefix,
}
use terragraph.Engine.Approve.{
  ResourceChange, summarize_changes, tally_actions, describe_action, is_replace,
}
use terragraph.Engine.Store.{
  Io, Object, Store, ok, failed, read, write, write_over, commit, valid_key, is_hex_name, remove,
  remove_at, new_revision,
}
use terragraph.Engine.Store.Revisions.{Call, write_call, remove_call, run, IsStore, run-same_object}
use terragraph.Engine.Store.Contract.{IsWrite, IsRemoval, view, local_store-keeps_contract}
use terragraph.Engine.StoreS3.{write_s3, remove_s3}
use terragraph.Engine.StoreS3.Contract.{view_s3, s3_store-keeps_contract}
use terragraph.Tests.Buckets.{Bucket, memory, memory-IsS3, put_object}

abbrev pub created : ResourceChange
created = record { address = bytes "aws_vpc.main"; actions = bytes "create" ∷ [] }

abbrev replaced_db : ResourceChange
replaced_db = record {
  address = bytes "aws_db.main";
  actions = bytes "delete" ∷ bytes "create" ∷ [];
}

summarized :
    summarize_changes (record { add = 0; change = 0; destroy = 0 }) (created ∷ replaced_db ∷ [])
    ≡ record { add = 2; change = 0; destroy = 1 }
unfolding summarize_changes tally_actions is_replace str_eq
summarized = refl

described : describe_action replaced_db ≡ bytes "replace"
unfolding describe_action is_replace str_eq
described = refl

abbrev pub good : Io
good = record {
  live = true;
  stat = true;
  readable = true;
  staged = true;
  live_after = true;
  moved = true;
  synced = true;
}

abbrev pub late : Io
late = record good { live_after = false }

abbrev pub counter : ℕ → Str
counter n = n ∷ []

counter_inj : (i j : ℕ) → counter i ≡ counter j → i ≡ j
counter_inj i j e = cc

abbrev key : Str
key = bytes "run-0123456789abcdef0123456789abcdef.json"

abbrev first_object : Object ℕ
first_object = record { revision = new_revision counter 0; body = 10 }

abbrev second_object : Object ℕ
second_object = record { revision = new_revision counter 1; body = 20 }

abbrev one_object : Store ℕ
one_object = record { objects = (key, first_object) ∷ []; drawn = 1 }

abbrev two_drawn : Store ℕ
two_drawn = record { objects = (key, second_object) ∷ []; drawn = 2 }

written :
    write counter good one_object key 20 first_object.revision
    ≡ (ok second_object.revision, two_drawn)
unfolding write write_over commit read valid_key is_hex_name has_prefix lookup insert str_eq
written = refl

written_late :
    write counter late one_object key 20 first_object.revision
    ≡ (failed, record one_object { drawn = 2 })
unfolding write write_over commit read valid_key is_hex_name has_prefix lookup insert str_eq
written_late = refl

one_object-IsStore : IsStore counter one_object
unfolding lookup
one_object-IsStore k o = elim (Bool-cases (str_eq k key)) [
  | inl e ↦ rw e (λ h. (0, omega arith, omega arith, sym (revision_inj h)))
  | inr e ↦ rw e (λ h. absurd (cc))
]
  where
    revision_inj : some first_object ≡ some o → first_object.revision ≡ o.revision
    revision_inj h = cc

abbrev calls : List (Call ℕ)
calls =
    write_call good (bytes "none") 5 []
    ∷ write_call late key 30 first_object.revision
    ∷ remove_call good key (bytes "rev-old")
    ∷ []

run-same_object_example : first_object ≡ first_object
unfolding run write write_over commit read valid_key is_hex_name has_prefix lookup insert str_eq
    remove remove_at
run-same_object_example =
    run-same_object counter calls one_object key first_object first_object counter_inj
      one_object-IsStore refl refl refl

local_store-keeps_contract_example :
    IsWrite
      (view one_object)
      key
      first_object.revision
      20
      (write counter late one_object key 20 first_object.revision).0
      (view (write counter late one_object key 20 first_object.revision).1)
    × IsRemoval
        (view one_object)
        key
        first_object.revision
        (remove late one_object key first_object.revision).0
        (view (remove late one_object key first_object.revision).1)
local_store-keeps_contract_example =
    local_store-keeps_contract counter late one_object key first_object.revision 20

abbrev bucket : Bucket (Object ℕ)
bucket = record {
  held = (bytes "runs/" ++ key, (1 ∷ [], record { revision = bytes "rev-a"; body = 10 })) ∷ [];
  puts = 1;
}

written_s3 :
    (write_s3 memory (bytes "runs/") true (bytes "rev-b") bucket key 20 (1 ∷ [])).0 ≡ ok (2 ∷ [])
unfolding write_s3 valid_key is_hex_name has_prefix put_object lookup insert str_eq
written_s3 = refl

s3_store-keeps_contract_example :
    IsWrite
      (view_s3 memory (bytes "runs/") bucket)
      key
      (1 ∷ [])
      20
      (write_s3 memory (bytes "runs/") true (bytes "rev-b") bucket key 20 (1 ∷ [])).0
      (view_s3 memory
        (bytes "runs/")
        (write_s3 memory (bytes "runs/") true (bytes "rev-b") bucket key 20 (1 ∷ [])).1)
    × IsRemoval
        (view_s3 memory (bytes "runs/") bucket)
        key
        (1 ∷ [])
        (remove_s3 memory (bytes "runs/") bucket key (1 ∷ [])).0
        (view_s3 memory (bytes "runs/") (remove_s3 memory (bytes "runs/") bucket key (1 ∷ [])).1)
s3_store-keeps_contract_example =
    s3_store-keeps_contract memory (bytes "runs/") memory-IsS3 true (bytes "rev-b") bucket key
      (1 ∷ []) 20
