-- ===== src/Files/Gateway/Grants.antt =====
-- backend/app/files/gateway.py: when a check allows a path, and what it allows.
use cyber_companion.Base.{
  ◌≡◌, refl, sym, ap, ◌∙◌, true, false, Option, none, some, some-injective, List, [], ◌∷◌, ◌++◌,
  ◌↔◌, inl, inr, arith, false≢true, if_cases, ◌>>=◌,
}
use cyber_companion.Base.Text.{Text, strip, is_empty}
use cyber_companion.Files.Gateway.{
  Parts, Resolved, failed, located, FileOperation, AllowedFolder, PermissionsConfig,
  PathAccessResult, FileAccessLog, FileSystem, contains_parent_reference, is_within_root, permitted,
  absolute_lexical_path, match_folder, check_target, no_folders, check_folder, check_match,
  check_lexical, check_candidate, verdict, logged, finalize, check_path,
}
use cyber_companion.Files.Gateway.Folders.{Resolved-cases, IsFirst, match-IsFirst, first-match}

module _ (fs : FileSystem) where
  -- What a path has to be for an operation on it to be allowed, and the file that it then stands for.
  pub record Granted (config : PermissionsConfig) (requested_path : Text)
      (operation : FileOperation) (target : Parts) : Type 0 where
    pub named : is_empty (strip requested_path) ≡ false
    pub candidate : Parts
    pub expanded : fs.expand (strip requested_path) ≡ some candidate
    pub no_parent : contains_parent_reference candidate ≡ false
    pub lexical : Parts
    pub normal : absolute_lexical_path fs candidate ≡ located lexical
    pub folder : AllowedFolder
    pub first : IsFirst fs lexical folder config.allowed_folders
    pub permission : permitted folder operation ≡ true
    pub real_root : Parts
    pub root_is : fs.resolve folder.root ≡ located real_root
    pub target_is : fs.realpath lexical ≡ located target
    pub inside : is_within_root target real_root ≡ true

  module _ (config : PermissionsConfig) (requested_path : Text) (operation : FileOperation) where
    -- If the result allows anything, then it is what is granted.
    abbrev Sound : Option PathAccessResult → Type 0
    Sound o =
        (r : PathAccessResult)
        → o ≡ some r
        → r.allowed ≡ true
        → (target : Parts) × (Granted config requested_path operation target
            × (r.resolved_path ≡ fs.to_text target))

    refused-Sound : (q : PathAccessResult) → q.allowed ≡ false → Sound (some q)
    refused-Sound q h r e a =
        absurd (
          false≢true
            (sym h ∙ (ap (λ (x : PathAccessResult). x.allowed) (some-injective q r e) ∙ a)))

    none-Sound : Sound none
    none-Sound r e a = absurd (ground (arith, e))

    module _ (named : is_empty (strip requested_path) ≡ false) (candidate lexical : Parts)
        (expanded : fs.expand (strip requested_path) ≡ some candidate)
        (no_parent : contains_parent_reference candidate ≡ false)
        (normal : absolute_lexical_path fs candidate ≡ located lexical) where
      target-Sound :
          (folder : AllowedFolder) (real_root : Parts) (o : Resolved)
          → IsFirst fs lexical folder config.allowed_folders
          → permitted folder operation ≡ true
          → fs.resolve folder.root ≡ located real_root
          → fs.realpath lexical ≡ o
          → Sound
              (some (check_target fs config requested_path operation folder lexical real_root o))
      unfolding check_target
      target-Sound folder real_root (failed e) first permission root_is target_is =
          refused-Sound _ refl
      target-Sound folder real_root (located target) first permission root_is target_is =
          if_cases (λ q. Sound (some q)) (is_within_root target real_root)
            (λ inside r e a. (
              target,
              (
                record {
                  named = named;
                  candidate = candidate;
                  expanded = expanded;
                  no_parent = no_parent;
                  lexical = lexical;
                  normal = normal;
                  folder = folder;
                  first = first;
                  permission = permission;
                  real_root = real_root;
                  root_is = root_is;
                  target_is = target_is;
                  inside = inside;
                },
                sym (ap (λ (x : PathAccessResult). x.resolved_path) (some-injective _ r e)),
              ),
            ))
            (λ outside. refused-Sound _ refl)

      folder-Sound :
          (folder : AllowedFolder)
          → IsFirst fs lexical folder config.allowed_folders
          → Sound (check_folder fs config requested_path operation folder lexical)
      unfolding check_folder
      folder-Sound folder first =
          if_cases Sound (permitted folder operation)
            (λ permission. elim (Resolved-cases fs (fs.resolve folder.root)) [
              | inl (e, h) ↦ rw h none-Sound
              | inr (root, h) ↦
                  rw h (target-Sound folder root (fs.realpath lexical) first permission h refl)
            ])
            (λ denied. refused-Sound _ refl)

      match-Sound :
          (o : Option (Option AllowedFolder))
          → match_folder fs lexical config.allowed_folders ≡ o
          → Sound (o >>= check_match fs config requested_path operation candidate lexical)
      unfolding check_match
      match-Sound none h = none-Sound
      match-Sound (some none) h = refused-Sound _ refl
      match-Sound (some (some folder)) h =
          folder-Sound folder (match-IsFirst fs lexical config.allowed_folders folder h)

    lexical-Sound :
        (candidate : Parts) (o : Resolved)
        → is_empty (strip requested_path) ≡ false
        → fs.expand (strip requested_path) ≡ some candidate
        → contains_parent_reference candidate ≡ false
        → absolute_lexical_path fs candidate ≡ o
        → Sound (check_lexical fs config requested_path operation candidate o)
    unfolding check_lexical
    lexical-Sound candidate (failed e) named expanded no_parent normal = refused-Sound _ refl
    lexical-Sound candidate (located lexical) named expanded no_parent normal =
        if_cases Sound (no_folders fs config requested_path operation config.allowed_folders)
          (λ empty. refused-Sound _ refl)
          (λ some_folder.
            match-Sound named candidate lexical expanded no_parent normal
              (match_folder fs lexical config.allowed_folders) refl)

    expanded-Sound :
        (o : Option Parts)
        → is_empty (strip requested_path) ≡ false
        → fs.expand (strip requested_path) ≡ o
        → Sound (o >>= check_candidate fs config requested_path operation)
    unfolding check_candidate
    expanded-Sound none named expanded = none-Sound
    expanded-Sound (some candidate) named expanded =
        if_cases Sound (contains_parent_reference candidate) (λ climbs. refused-Sound _ refl)
          (λ no_parent.
            lexical-Sound candidate (absolute_lexical_path fs candidate) named expanded no_parent
              refl)

    verdict-Sound : Sound (verdict fs config requested_path operation)
    unfolding verdict
    verdict-Sound =
        if_cases Sound (is_empty (strip requested_path)) (λ blank. refused-Sound _ refl)
          (λ named. expanded-Sound (fs.expand (strip requested_path)) named refl)

    some-folders :
        (before after : List AllowedFolder) (f : AllowedFolder)
        → no_folders fs config requested_path operation (before ++ f ∷ after) ≡ false
    unfolding no_folders
    some-folders [] after f = refl
    some-folders (g ∷ before) after f = refl

    -- What is granted is allowed, with nothing raised on the way.
    verdict-allows :
        (target : Parts)
        → Granted config requested_path operation target
        → (r : PathAccessResult) × ((verdict fs config requested_path operation ≡ some r)
            × (r.allowed ≡ true)
            × (r.resolved_path ≡ fs.to_text target))
    unfolding verdict check_candidate check_lexical check_match check_folder check_target
    verdict-allows target g =
        let first = g.first in
        let matched =
          first-match fs g.lexical first.before first.after g.folder first.missed first.holds in
        let folders = some-folders first.before first.after g.folder in
        rw
          (
            g.named, g.expanded, g.no_parent, g.normal, first.splits, folders, matched,
            g.permission, g.root_is, g.target_is, g.inside,
          )
          (_, (refl, refl, refl))

    -- A check that ends, and allows the path as the text.
    pub Allows : Text → Option FileAccessLog → Text → Type 0
    Allows now store path =
        (r : PathAccessResult) × (store' : Option FileAccessLog) × (check_path fs config
            requested_path operation now store
          ≡ some (r, store'))
        × (r.allowed ≡ true)
        × (r.resolved_path ≡ path)

    checked-verdict :
        (now : Text) (store : Option FileAccessLog) (o : Option PathAccessResult)
        (r : PathAccessResult) (store' : Option FileAccessLog)
        → (o >>= (λ q. some (finalize fs config requested_path operation now store q)))
          ≡ some (r, store')
        → o ≡ some r
    unfolding finalize
    checked-verdict now store none r store' e = absurd (ground (arith, e))
    checked-verdict now store (some q) r store' e =
        ap (λ (x : PathAccessResult × Option FileAccessLog). some x.0) (some-injective _ _ e)

    -- A check comes to allow a text as the real path exactly if this text names a target that is
    -- granted: the request is not blank and has no part `..`, the first folder that contains its normal
    -- form permits the operation, and the target, with its links followed, is below the real root of
    -- that folder.
    pub check_path-Allows_iff :
        (now : Text) (store : Option FileAccessLog) (path : Text)
        → Allows now store path ↔ (
            (target : Parts) × (Granted config requested_path operation target
              × (path ≡ fs.to_text target)))
    unfolding Allows check_path finalize
    check_path-Allows_iff now store path = (
      λ (r, store', e, allowed, p).
          let known =
            checked-verdict now store (verdict fs config requested_path operation) r store' e in
          let (target, (granted, shown)) = verdict-Sound r known allowed in
          (target, (granted, sym p ∙ shown)),
      λ (target, (granted, p)).
          let (r, (known, allowed, shown)) = verdict-allows target granted in
          (
            r,
            logged fs config requested_path operation now store r,
            rw known refl,
            allowed,
            shown ∙ sym p,
          ),
    )
