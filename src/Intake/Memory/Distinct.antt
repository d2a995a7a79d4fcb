-- ===== src/Intake/Memory/Distinct.antt =====
-- Every history of `MemoryStore` keeps idempotency keys distinct in each document.
use doc_lens.Base.{
  ℕ, ℤ, String, ◌≡◌, refl, inl, inr, List, [], ◌∷◌, some, arith, ◌==◌, string_eq, lookup, insert,
  lookup-insert, subst, Result, ok, err, Bool-cases, Option-cases, All, Preorder, Moves,
  Moves-raise, Moves-pure, Moves-check, Moves-bind,
}
use doc_lens.Intake.Types.{UploadRecord, Document, OutboxEvent, StoreError}
use doc_lens.Intake.Memory.{
  MemoryStore, new_memory_store, save, create_document, get_document, find_key, with_defaults,
  add_upload, upload_document, create_document_and_queue, as_intent, create_upload_intent,
  Confirmation, already, newly, store_confirmation, confirm_in, confirm_upload,
}
use doc_lens.Intake.Memory.Parts.{Moves-find, Moves-add}
use doc_lens.Intake.Memory.History.{
  Call, creates, gets, uploads, queues, intends, confirms, step, run, confirm_in-Confirms,
}
use doc_lens.Intake.Memory.Keys.{
  KeysDistinct, KeysDistinct-append, KeysDistinct-same_keys, Confirms-keys,
}

pub record IsKeyed (m : MemoryStore) : Type 0 where
  pub at_id : (k : String) (d : Document) → lookup k m.docs ≡ some d → KeysDistinct d.uploads

-- `IsKeyed` is kept.
pub record Keeps (m m' : MemoryStore) : Type 0 where
  pub keeps : IsKeyed m → IsKeyed m'

instance abbrev pub keeps_preorder : Preorder Keeps
keeps_preorder = record {
  reflexive = λ m. record { keeps = λ h. h };
  transitive = λ m n o f g. record { keeps = λ h. g.keeps (f.keeps h) };
}

insert-IsKeyed :
    (m : MemoryStore) (id : String) (doc : Document)
    → KeysDistinct doc.uploads
    → IsKeyed m
    → IsKeyed (record m { docs = insert id doc m.docs })
insert-IsKeyed m id doc new h = record {
  at_id = λ k d e. elim (Bool-cases (id == k)) [
    | inl same ↦
        let one : doc ≡ d = ground (arith, lookup-insert id k doc m.docs) in
        subst (λ (x : Document). KeysDistinct x.uploads) one new
    | inr other ↦ h.at_id k d (ground (arith, lookup-insert id k doc m.docs))
  ];
}

save-Keeps :
    {A : Type 0} (a : A) (id : String) (m : MemoryStore) (doc doc' : Document)
    → lookup id m.docs ≡ some doc
    → (KeysDistinct doc.uploads → KeysDistinct doc'.uploads)
    → Moves Keeps (save a id doc') m
unfolding save
save-Keeps a id m doc doc' found f = record {
  at = record { keeps = λ h. insert-IsKeyed m id doc' (f (h.at_id id doc found)) h };
}

create_document-Keeps :
    (doc : Document) (m : MemoryStore)
    → KeysDistinct doc.uploads
    → Moves Keeps (create_document doc) m
unfolding create_document
create_document-Keeps doc m new = elim (Option-cases (lookup doc.id m.docs)) [
  | inl fresh ↦ record {
    at = rw (fresh, create_document) (record { keeps = λ h. insert-IsKeyed m doc.id doc new h });
  }
  | inr (_, taken) ↦ record { at = rw (taken, create_document) (record { keeps = λ h. h }) }
]

upload_document-Keeps :
    (now : ℕ) (org id : String) (u : UploadRecord) (m : MemoryStore)
    → Moves Keeps (upload_document now org id u) m
unfolding upload_document add_upload
upload_document-Keeps now org id u m = Moves-find _ id m λ doc found. Moves-check _ _ _ m λ _.
    Moves-add (find_key u.idempotency_key doc.uploads) (λ _. doc) _ id m _
      λ fresh.
        save-Keeps _ id m doc _ found
          (KeysDistinct-append doc.uploads (with_defaults u) (unfold with_defaults in fresh))

create_upload_intent-Keeps :
    (now : ℕ) (org id : String) (u : UploadRecord) (m : MemoryStore)
    → Moves Keeps (create_upload_intent now org id u) m
unfolding create_upload_intent
create_upload_intent-Keeps now org id u m = Moves-find _ id m λ doc found. Moves-check _ _ _ m λ _.
    Moves-add (find_key u.idempotency_key doc.uploads) (λ e. e) _ id m _
      λ fresh.
        save-Keeps _ id m doc _ found
          (KeysDistinct-append doc.uploads (as_intent u) (unfold as_intent in fresh))

module _ (now : ℕ) (upload_id : String) (size : ℤ) (checksum : String) where
  store_confirmation-Keeps :
      (id : String) (doc : Document) (r : Result StoreError Confirmation) (m : MemoryStore)
      → lookup id m.docs ≡ some doc
      → confirm_in now upload_id size checksum doc.uploads ≡ r
      → Moves Keeps (store_confirmation now id doc r) m
  unfolding store_confirmation
  store_confirmation-Keeps id doc (err e) m found h = Moves-raise e m
  store_confirmation-Keeps id doc (ok (already u)) m found h = Moves-pure u m
  store_confirmation-Keeps id doc (ok (newly u us)) m found h = save-Keeps u id m doc _ found (
      KeysDistinct-same_keys doc.uploads us
        (Confirms-keys (confirm_in-Confirms now upload_id size checksum doc.uploads u us h)))

  confirm_upload-Keeps :
      (org id : String) (event : OutboxEvent) (m : MemoryStore)
      → Moves Keeps (confirm_upload now org id upload_id size checksum event) m
  unfolding confirm_upload
  confirm_upload-Keeps org id event m =
      Moves-find _ id m
        λ doc found. Moves-check _ _ _ m λ _. store_confirmation-Keeps id doc _ m found refl

get_document-Keeps : (org id : String) (m : MemoryStore) → Moves Keeps (get_document org id) m
unfolding get_document
get_document-Keeps org id m =
    Moves-find _ id m λ doc found. Moves-check _ _ _ m λ _. Moves-pure doc m

-- Documents are created with distinct keys (the service creates them with no uploads).
abbrev pub CreatesKeyed : Call → Type 0
CreatesKeyed (creates doc) = KeysDistinct doc.uploads
CreatesKeyed (queues now doc u event) = KeysDistinct doc.uploads
CreatesKeyed _ = Unit

step-IsKeyed : (m : MemoryStore) (c : Call) → CreatesKeyed c → IsKeyed m → IsKeyed (step m c)
unfolding step create_document_and_queue
step-IsKeyed m (creates doc) new h = (create_document-Keeps doc m new).at.keeps h
step-IsKeyed m (gets org id) new h = (get_document-Keeps org id m).at.keeps h
step-IsKeyed m (uploads now org id u) new h = (upload_document-Keeps now org id u m).at.keeps h
step-IsKeyed m (queues now doc u event) new h =
    (Moves-bind _ _ m (create_document-Keeps doc m new)
        (λ _ _. upload_document-Keeps now doc.organization_id doc.id u _)).at.keeps
      h
step-IsKeyed m (intends now org id u) new h = (create_upload_intent-Keeps now org id u m).at.keeps h
step-IsKeyed m (confirms now org id upload_id size checksum event) new h =
    (confirm_upload-Keeps now upload_id size checksum org id event m).at.keeps h

-- After any calls, no two uploads of a stored document have the same non-empty idempotency key,
-- if that was so before and documents are created with such uploads only.
pub run-IsKeyed :
    (m : MemoryStore) (cs : List Call) → IsKeyed m → All CreatesKeyed cs → IsKeyed (run m cs)
unfolding run
run-IsKeyed m [] h all = h
run-IsKeyed m (c ∷ cs) h (new, all) = run-IsKeyed (step m c) cs (step-IsKeyed m c new h) all

pub IsKeyed-new_memory_store : IsKeyed new_memory_store
unfolding lookup
IsKeyed-new_memory_store = record { at_id = λ k d e. absurd (cc e) }
