-- ===== src/Intake/Memory/Growth.antt =====
-- How an operation of `MemoryStore` may change what is stored: documents keep their owner, and
-- their uploads are only added to or confirmed.
use doc_lens.Base.{
  ℕ, String, ◌≡◌, refl, sym, ap, ◌∙◌, subst, ◌⊎◌, inl, inr, List, [], ◌∷◌, ◌++◌, none, some, arith,
  eq_iff, ◌==◌, string_eq, lookup, insert, lookup-insert, Preorder, Moves, Moves-pure, Moves-check,
  Moves-bind, Bool-cases, Option-cases,
}
use doc_lens.Intake.Types.{UploadRecord, Document, OutboxEvent, pending, confirmed}
use doc_lens.Intake.Memory.{
  MemoryStore, save, create_document, get_document, find_key, add_upload, with_defaults,
  upload_document, create_document_and_queue, as_intent, create_upload_intent,
}
use doc_lens.Intake.Memory.Parts.{Moves-find, Moves-add}

-- An upload stays as it is, or it was pending and is now confirmed, under the same names.
abbrev pub MayBecome : UploadRecord → UploadRecord → Type 0
MayBecome u v =
    (v ≡ u)
    ⊎ ((u.status ≡ pending)
        × (v ≡ record u {
          status = confirmed;
          confirmed_at = v.confirmed_at;
          size_bytes = v.size_bytes;
          checksum = v.checksum;
        }))

-- The old uploads come first, in their order, each as `MayBecome` lets it.
abbrev pub Grows : List UploadRecord → List UploadRecord → Type 0
Grows [] vs = Unit
Grows (u ∷ us) [] = ⊥
Grows (u ∷ us) (v ∷ vs) = MayBecome u v × Grows us vs

pub Grows-refl : (us : List UploadRecord) → Grows us us
Grows-refl [] = tt
Grows-refl (u ∷ us) = (inl refl, Grows-refl us)

Grows-append : (us vs : List UploadRecord) → Grows us (us ++ vs)
Grows-append [] vs = tt
Grows-append (u ∷ us) vs = (inl refl, Grows-append us vs)

MayBecome-trans : (u v w : UploadRecord) → MayBecome u v → MayBecome v w → MayBecome u w
MayBecome-trans u v w (inl e) h = subst (λ x. MayBecome x w) e h
MayBecome-trans u v w (inr h) (inl e) = subst (λ x. MayBecome u x) (sym e) (inr h)
MayBecome-trans u v w (inr h) (inr k) =
    absurd (ground (arith, ap (λ (x : UploadRecord). x.status) h.1))

Grows-trans : (us vs ws : List UploadRecord) → Grows us vs → Grows vs ws → Grows us ws
Grows-trans [] vs ws g h = tt
Grows-trans (u ∷ us) [] ws g h = absurd g
Grows-trans (u ∷ us) (v ∷ vs) [] g h = absurd h
Grows-trans (u ∷ us) (v ∷ vs) (w ∷ ws) g h =
    (MayBecome-trans u v w g.0 h.0, Grows-trans us vs ws g.1 h.1)

-- A stored document has the same id and owner later, and its uploads have grown.
abbrev pub Continues : Document → Document → Type 0
Continues d d' =
    (d'.id ≡ d.id) × (d'.organization_id ≡ d.organization_id) × Grows d.uploads d'.uploads

-- Every stored document is still stored, as a continuation of itself.
pub record Extends (m m' : MemoryStore) : Type 0 where
  pub later :
      (k : String) (d : Document)
      → lookup k m.docs ≡ some d
      → (d' : Document) × (lookup k m'.docs ≡ some d') × Continues d d'

pub Extends-refl : (m : MemoryStore) → Extends m m
Extends-refl m = record { later = λ k d e. (d, e, (refl, refl, Grows-refl d.uploads)) }

pub Extends-trans : (m n o : MemoryStore) → Extends m n → Extends n o → Extends m o
Extends-trans m n o f g = record {
  later = λ k d e.
      let (d', e', c) = f.later k d e in
      let (d'', e'', c') = g.later k d' e' in
      (d'', e'', (c'.0 ∙ c.0, c'.1 ∙ c.1, Grows-trans d.uploads d'.uploads d''.uploads c.2 c'.2));
}

-- Writing back a document that continues the stored one.
insert-Extends :
    (m : MemoryStore) (id : String) (doc doc' : Document)
    → lookup id m.docs ≡ some doc
    → Continues doc doc'
    → Extends m (record m { docs = insert id doc' m.docs })
insert-Extends m id doc doc' found c = record {
  later = λ k d e. elim (Bool-cases (id == k)) [
    | inl same ↦
        let here : id ≡ k = (eq_iff id k).0 same in
        let one : doc ≡ d = cc (found, e, here) in
        (doc', rw (lookup-insert id k doc' m.docs, same), subst (λ x. Continues x doc') one c)
    | inr other ↦
        (d, rw (lookup-insert id k doc' m.docs, other) e, (refl, refl, Grows-refl d.uploads))
  ];
}

create-Extends :
    (m : MemoryStore) (doc : Document)
    → lookup doc.id m.docs ≡ none
    → Extends m (record m { docs = insert doc.id doc m.docs })
create-Extends m doc fresh = record {
  later = λ k d e. (
    d,
    ground (arith, lookup-insert doc.id k doc m.docs, eq_iff doc.id k),
    (refl, refl, Grows-refl d.uploads),
  );
}

instance abbrev pub extends_preorder : Preorder Extends
extends_preorder = record { reflexive = Extends-refl; transitive = Extends-trans }

pub create_document-Extends :
    (doc : Document) (m : MemoryStore) → Moves Extends (create_document doc) m
unfolding create_document
create_document-Extends doc m = elim (Option-cases (lookup doc.id m.docs)) [
  | inl fresh ↦ record { at = rw (fresh, create_document) (create-Extends m doc fresh) }
  | inr (_, taken) ↦ record { at = rw (taken, create_document) (Extends-refl m) }
]

pub save-Extends :
    {A : Type 0} (a : A) (id : String) (m : MemoryStore) (doc doc' : Document)
    → lookup id m.docs ≡ some doc
    → Continues doc doc'
    → Moves Extends (save a id doc') m
unfolding save
save-Extends a id m doc doc' found c = record { at = insert-Extends m id doc doc' found c }

pub get_document-Extends :
    (org id : String) (m : MemoryStore) → Moves Extends (get_document org id) m
unfolding get_document
get_document-Extends org id m =
    Moves-find _ id m λ doc found. Moves-check _ _ _ m λ _. Moves-pure doc m

pub upload_document-Extends :
    (now : ℕ) (org id : String) (u : UploadRecord) (m : MemoryStore)
    → Moves Extends (upload_document now org id u) m
unfolding upload_document add_upload
upload_document-Extends now org id u m = Moves-find _ id m λ doc found. Moves-check _ _ _ m λ _.
    Moves-add (find_key u.idempotency_key doc.uploads) (λ _. doc) _ id m _
      λ _.
        save-Extends _ id m doc _ found
          (refl, refl, Grows-append doc.uploads (with_defaults u ∷ []))

pub create_document_and_queue-Extends :
    (now : ℕ) (doc : Document) (u : UploadRecord) (event : OutboxEvent) (m : MemoryStore)
    → Moves Extends (create_document_and_queue now doc u event) m
unfolding create_document_and_queue
create_document_and_queue-Extends now doc u event m =
    Moves-bind _ _ m (create_document-Extends doc m)
      λ _ _. upload_document-Extends now doc.organization_id doc.id u _

pub create_upload_intent-Extends :
    (now : ℕ) (org id : String) (u : UploadRecord) (m : MemoryStore)
    → Moves Extends (create_upload_intent now org id u) m
unfolding create_upload_intent
create_upload_intent-Extends now org id u m = Moves-find _ id m λ doc found.
    Moves-check _ _ _ m λ _.
      Moves-add (find_key u.idempotency_key doc.uploads) (λ e. e) _ id m _
        λ _.
          save-Extends _ id m doc _ found (refl, refl, Grows-append doc.uploads (as_intent u ∷ []))
