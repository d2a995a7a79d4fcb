-- ===== src/Intake/Memory/Parts.antt =====
-- Rules for the parts that the operations of `MemoryStore` are built from.
use doc_lens.Base.{
  ◌≡◌, refl, String, Option, none, some, inl, inr, lookup, Exec, ◌>>=◌, Preorder, Moves,
  Option-cases, pure, Moves-pure,
}
use doc_lens.Intake.Types.{UploadRecord, Document, StoreError}
use doc_lens.Intake.Memory.{MemoryStore, find, save}

module _ {A : Type 0} {R : MemoryStore → MemoryStore → Type 0} ⦃p : Preorder R⦄ where
  -- An operation that first finds the document: what is left to show for the document found.
  pub Moves-find :
      (f : Document → Exec MemoryStore StoreError A) (id : String) (m : MemoryStore)
      → ((doc : Document) → lookup id m.docs ≡ some doc → Moves R (f doc) m)
      → Moves R (find id >>= f) m
  unfolding find ◌>>=◌
  Moves-find f id m h = elim (Option-cases (lookup id m.docs)) [
    | inl missing ↦ record { at = rw (missing, find) (p.reflexive m) }
    | inr (doc, found) ↦ record { at = rw (found, find) (h doc found).at }
  ]

  -- Adding an upload, unless its key is there.
  pub Moves-add :
      (known : Option UploadRecord) (old : UploadRecord → A) (new : A) (id : String)
      (m : MemoryStore) (doc : Document)
      → (known ≡ none → Moves R (save new id doc) m)
      → Moves R (elim known [ some e ↦ pure (old e) | none ↦ save new id doc ]) m
  Moves-add none old new id m doc h = h refl
  Moves-add (some e) old new id m doc h = Moves-pure (old e) m
