-- ===== src/Intake/Memory/Retries.antt =====
-- `MemoryStore` under retries: the second of two equal requests changes nothing.
use doc_lens.Base.{
  ℕ, String, ◌≡◌, ◌≢◌, refl, inl, inr, List, [], ◌∷◌, ◌++◌, none, some, arith, eq_iff, true, ◌==◌,
  string_eq, lookup, lookup-insert_self, trim_space, ok, ◌>>=◌, Option-cases,
}
use doc_lens.Intake.Types.{UploadRecord, Document}
use doc_lens.Intake.Memory.{
  MemoryStore, find, save, get_document, find_key, with_defaults, add_upload, upload_document,
  create_upload_intent, as_intent,
}

-- The uploads that `find_key` looks through, with one more behind that has the key.
find_key-append :
    (key : String) (us : List UploadRecord) (u : UploadRecord)
    → key ≢ ""
    → u.idempotency_key ≡ key
    → find_key key us ≡ none
    → find_key key (us ++ u ∷ []) ≡ some u
unfolding find_key
find_key-append key [] u h e n = ground (arith, eq_iff key "", eq_iff u.idempotency_key key)
find_key-append key (x ∷ us) u h e n = ground (arith, find_key-append key us u h e)

-- What an upload that succeeded leaves behind: the document, the owner's, and the key in it.
upload_document_leaves :
    (now : ℕ) (org id : String) (u : UploadRecord) (m m' : MemoryStore) (d : Document)
    → upload_document now org id u m ≡ (ok d, m')
    → u.idempotency_key ≢ ""
    → (lookup id m'.docs ≡ some d)
      × ((trim_space d.organization_id == trim_space org) ≡ true)
      × (find_key u.idempotency_key d.uploads ≢ none)
unfolding upload_document find save add_upload with_defaults ◌>>=◌
upload_document_leaves now org id u m m' d h nonempty = elim (Option-cases (lookup id m.docs)) [
  | inl missing ↦ ground arith
  | inr (doc, found) ↦ elim (Option-cases (find_key u.idempotency_key doc.uploads)) [
    | inr (e, known) ↦ ground arith
    | inl unknown ↦ ground (
      arith,
      lookup-insert_self id (add_upload now (with_defaults u) doc) m.docs,
      find_key-append u.idempotency_key doc.uploads (with_defaults u) nonempty refl unknown,
    )
  ]
]

get_document_found :
    (org id : String) (m : MemoryStore) (d : Document)
    → lookup id m.docs ≡ some d
    → (trim_space d.organization_id == trim_space org) ≡ true
    → get_document org id m ≡ (ok d, m)
unfolding get_document find ◌>>=◌
get_document_found org id m d found own = ground arith

upload_document_known :
    (now : ℕ) (org id : String) (u : UploadRecord) (m : MemoryStore) (d : Document)
    → lookup id m.docs ≡ some d
    → (trim_space d.organization_id == trim_space org) ≡ true
    → find_key u.idempotency_key d.uploads ≢ none
    → upload_document now org id u m ≡ (ok d, m)
unfolding upload_document find ◌>>=◌
upload_document_known now org id u m d found own known = ground arith

-- An upload that succeeded is what `GetDocument` returns next, and sending it again under its
-- (non-empty) idempotency key, whatever the rest of the second record, returns the same document
-- and leaves the store as it is.
pub upload_document_twice :
    (now now' : ℕ) (org id : String) (u u' : UploadRecord) (m m' : MemoryStore) (d : Document)
    → upload_document now org id u m ≡ (ok d, m')
    → u.idempotency_key ≢ ""
    → u'.idempotency_key ≡ u.idempotency_key
    → (get_document org id m' ≡ (ok d, m')) × (upload_document now' org id u' m' ≡ (ok d, m'))
upload_document_twice now now' org id u u' m m' d h nonempty same =
    let (found, own, known) = upload_document_leaves now org id u m m' d h nonempty in
    (
      get_document_found org id m' d found own,
      upload_document_known now' org id u' m' d found own (rw same known),
    )

-- `CreateUploadIntent` under a (non-empty) key that an earlier call used answers as that call did.
pub create_upload_intent_twice :
    (now now' : ℕ) (org id : String) (u u' v : UploadRecord) (m m' : MemoryStore)
    → create_upload_intent now org id u m ≡ (ok v, m')
    → u.idempotency_key ≢ ""
    → u'.idempotency_key ≡ u.idempotency_key
    → create_upload_intent now' org id u' m' ≡ (ok v, m')
unfolding create_upload_intent find save as_intent ◌>>=◌
create_upload_intent_twice now now' org id u u' v m m' h nonempty same =
    elim (Option-cases (lookup id m.docs)) [
      | inl missing ↦ ground arith
      | inr (doc, found) ↦ elim (Option-cases (find_key u.idempotency_key doc.uploads)) [
        | inr (e, known) ↦ ground arith
        | inl unknown ↦ ground (
          arith,
          lookup-insert_self id
              (record doc { uploads = doc.uploads ++ as_intent u ∷ []; updated_at = now }) m.docs,
          find_key-append u.idempotency_key doc.uploads (as_intent u) nonempty refl unknown,
        )
      ]
    ]
