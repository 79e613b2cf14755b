-- ===== src/Files/Gateway/Folders.antt =====
-- backend/app/files/gateway.py: the folder that a path is looked up in.
use cyber_companion.Base.{
  ◌≡◌, refl, ap, Bool, true, false, some, some-injective, List, [], ◌∷◌, ◌++◌, ◌⊎◌, inl, inr, subst,
  arith, if_cases,
}
use cyber_companion.Base.Text.{Text}
use cyber_companion.Files.Gateway.{
  Parts, Resolved, failed, located, AllowedFolder, FileSystem, is_within_root, match_folder,
}

module _ (fs : FileSystem) where
  -- A folder whose root resolves, with or without the path below it.
  pub Holds : Bool → Parts → AllowedFolder → Type 0
  Holds b lexical folder =
      (root : Parts) × ((fs.resolve folder.root ≡ located root) × (is_within_root lexical root ≡ b))

  pub AllMiss : Parts → List AllowedFolder → Type 0
  AllMiss lexical [] = Unit
  AllMiss lexical (folder ∷ folders) = Holds false lexical folder × AllMiss lexical folders

  -- The first folder of a list that the path is below.
  pub record IsFirst (lexical : Parts) (folder : AllowedFolder) (folders : List AllowedFolder)
      : Type 0 where
    pub before : List AllowedFolder
    pub after : List AllowedFolder
    pub splits : folders ≡ before ++ folder ∷ after
    pub missed : AllMiss lexical before
    pub holds : Holds true lexical folder

  pub Resolved-cases :
      (r : Resolved) → ((e : Text) × (r ≡ failed e)) ⊎ ((path : Parts) × (r ≡ located path))
  Resolved-cases (failed e) = inl (e, refl)
  Resolved-cases (located path) = inr (path, refl)

  IsFirst-here :
      (lexical : Parts) (folder : AllowedFolder) (folders : List AllowedFolder)
      → Holds true lexical folder
      → IsFirst lexical folder (folder ∷ folders)
  unfolding AllMiss
  IsFirst-here lexical folder folders h = record {
    before = [];
    after = folders;
    splits = refl;
    missed = tt;
    holds = h;
  }

  IsFirst-later :
      (lexical : Parts) (folder f : AllowedFolder) (folders : List AllowedFolder)
      → Holds false lexical folder
      → IsFirst lexical f folders
      → IsFirst lexical f (folder ∷ folders)
  unfolding AllMiss
  IsFirst-later lexical folder f folders miss h = record {
    before = folder ∷ h.before;
    after = h.after;
    splits = ap (λ l. folder ∷ l) h.splits;
    missed = (miss, h.missed);
    holds = h.holds;
  }

  pub match-IsFirst :
      (lexical : Parts) (folders : List AllowedFolder) (f : AllowedFolder)
      → match_folder fs lexical folders ≡ some (some f)
      → IsFirst lexical f folders
  unfolding match_folder Holds
  match-IsFirst lexical [] f = λ h. absurd (ground (arith, h))
  match-IsFirst lexical (folder ∷ folders) f = elim (Resolved-cases (fs.resolve folder.root)) [
    | inl (e, h) ↦ rw (h, match_folder) (λ m. absurd (ground (arith, m)))
    | inr (root, h) ↦
        rw (h, match_folder)
          (if_cases (λ o. o ≡ some (some f) → IsFirst lexical f (folder ∷ folders))
            (is_within_root lexical root)
            (λ inside m.
              subst (λ g. IsFirst lexical g (folder ∷ folders))
                (some-injective folder f (some-injective (some folder) (some f) m))
                (IsFirst-here lexical folder folders (root, (h, inside))))
            (λ outside m.
              IsFirst-later lexical folder f folders (root, (h, outside))
                (match-IsFirst lexical folders f m)))
  ]

  pub first-match :
      (lexical : Parts) (before after : List AllowedFolder) (f : AllowedFolder)
      → AllMiss lexical before
      → Holds true lexical f
      → match_folder fs lexical (before ++ f ∷ after) ≡ some (some f)
  unfolding match_folder AllMiss Holds
  first-match lexical [] after f miss (root, (e, inside)) = rw (e, inside) refl
  first-match lexical (g ∷ before) after f ((root, (e, outside)), miss) h =
      rw (e, outside) (first-match lexical before after f miss h)
