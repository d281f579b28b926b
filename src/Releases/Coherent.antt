-- ===== src/Releases/Coherent.antt =====
-- Every manifest that is served is consistent, from wherever it comes.
use hsgram_admin.Prelude.{
  ◌≡◌, refl, Bool, true, false, ◌||◌, Option, none, some, List, [], ◌∷◌, inl, inr, Bool-cases, ◌==◌,
  if◌then◌else◌,
}
use mathlib.Core.Path.{subst}
use mathlib.Core.Option.{some_inj}
use hsgram_admin.Prelude.Lists.{OptionOf}
use hsgram_admin.Prelude.Text.{Text, codes, trim, is_empty, text_eq}
use hsgram_admin.Sql.{Result, ok, err, fault, World, pure, attempt}
use hsgram_admin.Sql.Triple.{
  Returns, Returns-Anything, Triple, Anything, Triple-pure, Triple-bind, Triple-if,
}
use hsgram_admin.Releases.Names.{required, optional, normalize_update_level}
use hsgram_admin.Releases.Types.{Place, AppRelease, Tables, ReleaseError, Outside, Action}
use hsgram_admin.Releases.Store.{normal_place, get_latest_for, get_newest_for, is_release_not_found}
use hsgram_admin.Releases.Manifest.{
  UpdateManifest, FileAnswer, missing, unreadable, malformed, file, LoadError, other, not_exist,
  invalid_manifest, Request, Site, or_text, default_title, release_manifest,
}
use hsgram_admin.Releases.Load.{
  word_or, and_then, level_of, checked_manifest, normalize_loaded, after_normalized, after_read,
  load_files, load_update_manifest_file, after_lookup, load_for, load_normal, load_update_manifest,
}

-- An update is forced exactly if its level is `required`, and it has a title.
pub record IsCoherent (m : UpdateManifest) : Type 0 where
  pub forced : m.force ≡ text_eq m.update_level required
  pub titled : is_empty m.title ≡ false

title-filled : (t version : Text) → is_empty (or_text t (default_title version)) ≡ false
unfolding codes
title-filled [] version = refl
title-filled (c ∷ s) version = refl

release_manifest-IsCoherent :
    (site : Site) (r : Request) (a : AppRelease) → IsCoherent (release_manifest site r a)
unfolding release_manifest
release_manifest-IsCoherent site r a = record {
  forced = refl;
  titled = title-filled (trim a.release.title) a.release.version;
}

record Yields {B : Type 0} (Q : B → Type 0) (x : Option B) : Type 0 where
  holds : OptionOf Q x

and_then-Yields :
    {A B : Type 0} (Q : B → Type 0) (x : Option A) (f : A → Option B)
    → ((a : A) → x ≡ some a → Yields Q (f a))
    → Yields Q (and_then x f)
unfolding and_then
and_then-Yields Q none f h = record { holds = tt }
and_then-Yields Q (some a) f h = h a refl

level-force :
    (normal : Text → Option Text) (t : Text) (force : Bool) (level : Text)
    → word_or (if force then required else optional) normal t ≡ some level
    → (if is_empty t then force else text_eq level required) ≡ text_eq level required
unfolding codes required optional text_eq
level-force normal [] true level e = subst (λ l. true ≡ text_eq l required) (some_inj.0 e) refl
level-force normal [] false level e = subst (λ l. false ≡ text_eq l required) (some_inj.0 e) refl
level-force normal (c ∷ s) force level e = refl

module _ (o : Outside) (site : Site) (r : Request) where
  checked_manifest-IsCoherent :
      (m : UpdateManifest)
      → m.force ≡ text_eq m.update_level required
      → Yields IsCoherent (checked_manifest o site r m)
  checked_manifest-IsCoherent m e =
      elim (Bool-cases (
        is_empty (trim m.version)
        || m.version_code == 0
        || is_empty (trim m.public_download_url))) [
          | inl y ↦ rw y (record { holds = tt })
          | inr n ↦
              rw n
                (record { holds = record { forced = e; titled = title-filled m.title m.version } })
        ]

  normalize_loaded-IsCoherent :
      (k : Place) (m : UpdateManifest) → Yields IsCoherent (normalize_loaded o site r k m)
  unfolding normalize_loaded
  normalize_loaded-IsCoherent k m = and_then-Yields IsCoherent _ _ (λ platform _.
      and_then-Yields IsCoherent _ _ (λ channel _. and_then-Yields IsCoherent _ _ (λ arch _.
        and_then-Yields IsCoherent (level_of o site r m) _ (λ level e.
          checked_manifest-IsCoherent _
            (level-force (normalize_update_level o.lower) m.update_level m.force level e)))))

  abbrev Loaded : Result LoadError UpdateManifest → Type 0
  Loaded l = Returns IsCoherent l

  after_read-Loaded :
      (k : Place) (rest : LoadError → Result LoadError UpdateManifest) (f : FileAnswer)
      → ((e : LoadError) → Loaded (rest e))
      → Loaded (after_read o site r k rest f)
  after_read-Loaded k rest missing h = h not_exist
  after_read-Loaded k rest unreadable h = h other
  after_read-Loaded k rest malformed h = h invalid_manifest
  after_read-Loaded k rest (file m) h =
      kept (normalize_loaded o site r k m) (normalize_loaded-IsCoherent k m).holds
    where
      kept :
          (x : Option UpdateManifest)
          → OptionOf IsCoherent x
          → Loaded (after_normalized o site r rest x)
      kept none q = h invalid_manifest
      kept (some n) q = q

  load_files-Loaded :
      (k : Place) (ps : List Text) (e : LoadError) → Loaded (load_files o site r k ps e)
  load_files-Loaded k [] e = tt
  load_files-Loaded k (p ∷ ps) e =
      after_read-Loaded k (load_files o site r k ps) (site.read_manifest p) (load_files-Loaded k ps)

  file-Loaded : (k : Place) → Loaded (load_update_manifest_file o site r k)
  unfolding load_update_manifest_file
  file-Loaded k = load_files-Loaded k _ not_exist

  abbrev Always : Tables → Type 0
  Always t = Unit

  any-Triple : {A : Type 0} (m : Action A) → Triple Always (attempt m) Anything
  any-Triple m = record { run = λ w h. (tt, Returns-Anything _) }

  after_lookup-Loaded :
      (next : Action (Result LoadError UpdateManifest)) (x : Result ReleaseError AppRelease)
      → Triple Always next Loaded
      → Triple Always (after_lookup o site r next x) Loaded
  after_lookup-Loaded next (ok a) h = Triple-pure _ (release_manifest-IsCoherent site r a)
  after_lookup-Loaded next (err x) h =
      Triple-if (is_release_not_found x) next (pure (err other)) h (Triple-pure _ tt)
  after_lookup-Loaded next fault h = Triple-pure _ tt

  load_for-Loaded :
      (has_store : Bool) (k : Place) → Triple Always (load_for o site r has_store k) Loaded
  load_for-Loaded false k = Triple-pure _ (file-Loaded k)
  load_for-Loaded true k =
      Triple-bind {Q = Anything} (any-Triple (get_latest_for o k.platform k.channel k.arch))
        (λ latest _. after_lookup-Loaded _ latest (
          Triple-bind {Q = Anything} (any-Triple (get_newest_for o k.platform k.channel k.arch))
            (λ newest _. after_lookup-Loaded _ newest (Triple-pure _ (file-Loaded k)))))

  load_normal-Loaded :
      (has_store : Bool) (x : Result ReleaseError Place)
      → Triple Always (load_normal o site r has_store x) Loaded
  load_normal-Loaded has_store (ok k) = load_for-Loaded has_store k
  load_normal-Loaded has_store (err x) = Triple-pure _ tt
  load_normal-Loaded has_store fault = Triple-pure _ tt

-- Whichever statements fail, and from the store as well as from a file, an update manifest that is
-- served is forced exactly if its update level is `required`, and its title is not empty.
pub load_update_manifest-IsCoherent :
    (o : Outside) (site : Site) (r : Request) (has_store : Bool) (platform : Text)
    (w : World Tables (Unit {0}))
    → Returns (Returns IsCoherent) (load_update_manifest o site r has_store platform w).0
unfolding load_update_manifest
load_update_manifest-IsCoherent o site r has_store platform w =
    ((load_normal-Loaded o site r has_store (normal_place o platform r.channel r.arch)).run w tt).1
