-- ===== src/Releases/Placed.antt =====
-- Where an upload that passes the checks of its form is stored: handleReleaseUpload of
-- backend/internal/httpapi/admin_releases.go.
use hsgram_admin.Prelude.{
  ℕ, ◌≡◌, ◌⊎◌, refl, Option, none, some, List, true, false, Bool, [], ◌∷◌, inl, inr, Bool-cases,
  not, ◌&&◌, if◌then◌else◌, arith,
}
use hsgram_admin.Prelude.Lists.{All}
use hsgram_admin.Prelude.Decimal.{parse_int}
use hsgram_admin.Prelude.Text.{Text, trim, text_eq}
use hsgram_admin.Sql.{Result, ok, err, fault}
use hsgram_admin.Sql.Triple.{Returns}
use hsgram_admin.Releases.Names.{
  Case, android, windows, platforms, channels, any_arch, android_archs, windows_archs, archs_of,
  normalize_platform, normalize_channel, normalize_update_level, normalize_arch, arch_of_platform,
}
use hsgram_admin.Releases.Types.{
  Place, Outside, ReleaseError, unsupported_platform, unsupported_channel, unsupported_arch,
}
use hsgram_admin.Releases.Words.{pick-All}
use hsgram_admin.Releases.Store.{named, normal_place}
use hsgram_admin.Releases.Paths.{Disk, UploadError, prepare_release_path}
use hsgram_admin.Releases.Paths.{
  bad_method, bad_form, bad_words, bad_version_code, bad_min_supported, no_upload,
}
use hsgram_admin.Releases.Upload.{
  UploadForm, Checked, or_err, with_place, positive, lowest, check_form,
}
use hsgram_admin.Releases.Elements.{IsWord, all_safe, is_plain, test-IsWord}
use hsgram_admin.Releases.FileName.{IsPlaced, prepare_release_path-IsPlaced}

abbrev IsPlatform : Text → Type 0
IsPlatform p = (text_eq p android ≡ true) ⊎ (text_eq p windows ≡ true)

abbrev Words : List Case → Type 0
Words cs = All (λ (c : Case). IsWord c.word) cs

platforms-IsPlatform : All (λ (c : Case). IsPlatform c.word) platforms
unfolding platforms android windows text_eq
platforms-IsPlatform = (inl refl, (inr refl, tt))

abbrev all_words : List Case → Bool
all_words [] = true
all_words (c ∷ cs) = (all_safe c.word && is_plain c.word) && all_words cs

all_words-Words : (cs : List Case) → all_words cs ≡ true → Words cs
all_words-Words [] h = tt
all_words-Words (c ∷ cs) h =
    (test-IsWord c.word (ground arith) (ground arith), all_words-Words cs (ground arith))

channels-Words : Words channels
unfolding channels text_eq
channels-Words = all_words-Words channels refl

archs_of-Words : (platform : Text) → Words (archs_of platform)
unfolding android_archs windows_archs any_arch text_eq
archs_of-Words platform = elim (Bool-cases (text_eq platform android)) [
  | inl y ↦ rw y (all_words-Words android_archs refl)
  | inr n ↦ elim (Bool-cases (text_eq platform windows)) [
    | inl y ↦ rw (n, y) (all_words-Words windows_archs refl)
    | inr m ↦ rw (n, m) (all_words-Words (any_arch ∷ []) refl)
  ]
]

record IsNamed (k : Place) : Type 0 where
  platform : IsPlatform k.platform
  channel : IsWord k.channel
  arch : IsWord k.arch

module _ {A : Type 0} (Q : A → Type 0) where
  named-Returns :
      (e : ReleaseError) (x : Option Text) (f : Text → Result ReleaseError A)
      → ((w : Text) → x ≡ some w → Returns Q (f w))
      → Returns Q (named e x f)
  named-Returns e none f h = tt
  named-Returns e (some w) f h = h w refl

  or_err-Returns :
      {B : Type 0} (e : UploadError) (x : Option B) (f : B → Result UploadError A)
      → ((b : B) → Returns Q (f b))
      → Returns Q (or_err e x f)
  or_err-Returns e none f h = tt
  or_err-Returns e (some b) f h = h b

  refused-Returns :
      (e : UploadError) (b : Bool) (m : Result UploadError A)
      → Returns Q m
      → Returns Q (if b then err e else m)
  refused-Returns e true m h = tt
  refused-Returns e false m h = h

  with_place-Returns :
      (x : Result ReleaseError Place) (f : Place → Result UploadError A)
      → Returns IsNamed x
      → ((k : Place) → IsNamed k → Returns Q (f k))
      → Returns Q (with_place x f)
  with_place-Returns (ok k) f h g = g k h
  with_place-Returns (err x) f h g = tt
  with_place-Returns fault f h g = tt

arch-IsWord :
    (o : Outside) (p : Option Text) (arch a : Text)
    → arch_of_platform o.lower p arch ≡ some a
    → IsWord a
arch-IsWord o none arch a e = cc
arch-IsWord o (some p) arch a e = pick-All IsWord _ (archs_of p) a (archs_of-Words p) e

normal_place-IsNamed :
    (o : Outside) (platform channel arch : Text)
    → Returns IsNamed (normal_place o platform channel arch)
unfolding normal_place normalize_platform normalize_channel normalize_arch
normal_place-IsNamed o platform channel arch =
    named-Returns IsNamed unsupported_platform (normalize_platform o.lower platform) _ (λ p e.
      named-Returns IsNamed unsupported_channel (normalize_channel o.lower channel) _ (λ c f.
        named-Returns IsNamed unsupported_arch (normalize_arch o.lower p arch) _ (λ a g. record {
          platform = pick-All IsPlatform _ platforms p platforms-IsPlatform e;
          channel = pick-All IsWord _ channels c channels-Words f;
          arch = arch-IsWord o (normalize_platform o.lower p) arch a g;
        })))

abbrev PlacedFor : Outside → Disk → ℕ → Text → Checked → Type 0
PlacedFor o d unix version c =
    Returns (IsPlaced c.place) (prepare_release_path o d unix c.place version c.filename)

-- Whatever the form says, if its checks let it through: the name that prepareReleasePath makes is
-- one of letters, digits, dots, dashes and underscores, neither empty nor `.` nor `..`, and the path
-- is platform, channel, architecture and name, with slashes between them.
pub check_form-IsPlaced :
    (o : Outside) (d : Disk) (unix : ℕ) (f : UploadForm) (version : Text)
    → Returns
        (λ (c : Checked).
          Returns (IsPlaced c.place) (prepare_release_path o d unix c.place version c.filename))
        (check_form o f)
unfolding check_form
check_form-IsPlaced o d unix f version =
    let Q = PlacedFor o d unix version in
    refused-Returns Q bad_method (not f.method_post) _ (
      refused-Returns Q bad_form (not f.parsed) _ (
        with_place-Returns Q (normal_place o f.platform f.channel f.arch) _
          (normal_place-IsNamed o f.platform f.channel f.arch)
          (λ k named.
            or_err-Returns Q bad_words (normalize_update_level o.lower f.update_level) _ (λ level.
              or_err-Returns Q bad_version_code (positive (parse_int (trim f.version_code))) _
                (λ code.
                  or_err-Returns Q bad_min_supported (lowest (trim f.min_supported_version_code)) _
                    (λ low. or_err-Returns Q no_upload f.filename _ (λ filename.
                      prepare_release_path-IsPlaced o d unix k version filename named.platform
                        named.channel named.arch)))))))
