-- ===== src/Releases/Offered.antt =====
-- What a client is offered: the release that was published, and manifests that are consistent.
use hsgram_admin.Prelude.{
  ℕ, ◌≡◌, refl, ap, true, Option, none, some, List, inl, inr, Option-cases, ◌==◌,
}
use mathlib.Core.Path.{subst}
use hsgram_admin.Prelude.Lists.{first_where}
use hsgram_admin.Prelude.Text.{Text}
use hsgram_admin.Sql.{Result, ok, err, fault, quiet, run_sql}
use hsgram_admin.Releases.Names.{normalize_platform, normalize_channel, normalize_arch}
use hsgram_admin.Releases.Words.{all_lower, normalize-normal}
use hsgram_admin.Releases.Types.{Place, Release, AppRelease, Tables, ReleaseError, Outside}
use hsgram_admin.Releases.Rows.{set_published}
use hsgram_admin.Releases.Store.{
  normal_place, scan_release, get_latest_for, get_newest_for, publish_app_release,
}
use hsgram_admin.Releases.Invariant.{published_tables}
use hsgram_admin.Releases.Served.{
  or_no_rows, or_else, in_order, latest_at, newest_at, lookups-in_order,
}
use hsgram_admin.Releases.Published.{published-served}
use hsgram_admin.Releases.Manifest.{UpdateManifest, LoadError, Request, Site, release_manifest}
use hsgram_admin.Releases.Load.{load_update_manifest_file, load_for, load_update_manifest}

abbrev place_of : Place → Result ReleaseError Place → Place
place_of d (ok k) = k
place_of d (err x) = d
place_of d fault = d

module _ (o : Outside) (site : Site) (r : Request) where
  -- The release that is offered, if there is one, or else what the files have.
  abbrev pub offered : Option AppRelease → Place → Result LoadError UpdateManifest
  offered none k = load_update_manifest_file o site r k
  offered (some a) k = ok (release_manifest site r a)

  load_for-found :
      (k : Place) (t : Tables) (s : List Unit) (x y : Option AppRelease)
      → get_latest_for o k.platform k.channel k.arch (quiet t s) ≡ (or_no_rows x, quiet t s)
      → get_newest_for o k.platform k.channel k.arch (quiet t s) ≡ (or_no_rows y, quiet t s)
      → load_for o site r true k (quiet t s) ≡ (ok (offered (or_else x y) k), quiet t s)
  unfolding run_sql
  load_for-found k t s (some a) y e f = rw e refl
  load_for-found k t s none (some a) e f = rw (e, f) refl
  load_for-found k t s none none e f = rw (e, f) refl

  module _ (keeps : (s : Text) → all_lower s ≡ true → o.lower s ≡ s) where
    normal_place-normal :
        (platform channel arch : Text) (k : Place)
        → normal_place o platform channel arch ≡ ok k
        → normal_place o k.platform k.channel k.arch ≡ ok k
    unfolding normal_place
    normal_place-normal platform channel arch k e =
        let words = normalize-normal o.lower keeps in
        elim (Option-cases (normalize_platform o.lower platform)) [
          | inl p ↦ let no = rw p at e in cc
          | inr (p, ep) ↦ elim (Option-cases (normalize_channel o.lower channel)) [
            | inl c ↦ let no = rw (ep, c) at e in cc
            | inr (c, ec) ↦ elim (Option-cases (normalize_arch o.lower p arch)) [
              | inl a ↦ let no = rw (ep, ec, a) at e in cc
              | inr (a, ea) ↦
                  let same : Path (Result ReleaseError Place)
                      (ok (record { platform = p; channel = c; arch = a })) (ok k) =
                    rw (ep, ec, ea) at e in
                  let eq = ap (place_of k) same in
                  let kept : normal_place o p c a
                      ≡ ok (record { platform = p; channel = c; arch = a }) =
                    rw (words.0 platform p ep, words.1 channel c ec, words.3 p arch a ea) refl in
                  subst (λ (l : Place). normal_place o l.platform l.channel l.arch ≡ ok l) eq kept
            ]
          ]
        ]

    -- Where no statement fails, an update request whose words are supported is answered from the
    -- store with the latest release, in the order of the lookup, or else with the first in the order
    -- of getNewestAppReleaseExact, published or not, or else from the manifest files.
    pub load-in_order :
        (platform : Text) (k : Place) (t : Tables) (s : List Unit)
        → normal_place o platform r.channel r.arch ≡ ok k
        → load_update_manifest o site r true platform (quiet t s) ≡ (
          ok (offered (or_else (in_order (latest_at o t) k) (in_order (newest_at o t) k)) k),
          quiet t s,
        )
    unfolding load_update_manifest
    load-in_order platform k t s e =
        let n = normal_place-normal platform r.channel r.arch k e in
        let both = lookups-in_order o k.platform k.channel k.arch k t s n in
        rw e (
          load_for-found k t s (in_order (latest_at o t) k) (in_order (newest_at o t) k) both.0
            both.1)

    -- Behind a publication in which no statement fails, an update request whose words are those of
    -- the place of the release is answered with the release that was published.
    pub published-offered :
        (now i : ℕ) (a : Release) (platform : Text) (t : Tables) (s : List Unit)
        → first_where (λ (x : Release). x.id == i) t.releases ≡ some a
        → normal_place o platform r.channel r.arch ≡ ok a.place
        → load_update_manifest o site r true platform (publish_app_release o now i (quiet t s)).1
          ≡ (
            ok (ok (release_manifest site r (scan_release o (set_published now i a) true))),
            quiet (published_tables now i a.place t) s,
          )
    unfolding load_update_manifest run_sql
    published-offered now i a platform t s found e =
        let n = normal_place-normal platform r.channel r.arch a.place e in
        let both =
          published-served o now i a a.place.platform a.place.channel a.place.arch t s found n in
        rw (both.0, e, both.1) refl
