-- ===== src/Releases/FileName.antt =====
-- Where an upload is stored: prepareReleasePath of backend/internal/httpapi/admin_releases.go.
use hsgram_admin.Prelude.{
  ℕ, ◌-◌, ◌≡◌, ◌⊎◌, refl, sym, true, false, ◌&&◌, [], ◌∷◌, ◌++◌, inl, inr, arith, Bool-cases, leb,
  if◌then◌else◌,
}
use mathlib.Core.Path.{subst}
use hsgram_admin.Prelude.Lists.{All-append, All-take, rows_where-All, length, drop}
use hsgram_admin.Prelude.Decimal.{show, show-All}
use hsgram_admin.Prelude.Text.{Text, codes, trim, is_empty, text_eq, text_eq_iff}
use hsgram_admin.Sql.{Result, ok, err, fault}
use hsgram_admin.Sql.Triple.{Returns}
use hsgram_admin.Releases.Names.{android, windows, stable, universal}
use hsgram_admin.Releases.Types.{Place, Outside}
use hsgram_admin.Releases.Manifest.{or_text}
use hsgram_admin.Releases.FilePath.{dot, join, join_slash, ext}
use hsgram_admin.Releases.Paths.{
  Disk, exists, Prepared, UploadError, not_apk, not_exe, is_safe, apk_ext, exe_ext, trim_suffix,
  sanitize_filename, sanitize_release_token, mime_of, base_name, free_name, prepare_named,
  prepare_release_path,
}
use hsgram_admin.Releases.Elements.{
  IsSafe, IsWord, test-IsWord, all_safe-IsSafe, trim-safe, rows_where-safe, base-safe, join-words,
  plain-dash,
}

-- A safe name is kept as it is.
sanitize_filename-safe : (c : ℕ) (s : Text) → IsWord (c ∷ s) → sanitize_filename (c ∷ s) ≡ c ∷ s
unfolding sanitize_filename
sanitize_filename-safe c s h =
    let plain = h.1 in
    let no : text_eq (c ∷ s) dot ≡ false = ground arith in
    rw (trim-safe (c ∷ s) h.0, base-safe c s h.0, no) (rows_where-safe (c ∷ s) h.0)

show-IsSafe : (n : ℕ) → IsSafe (show n)
show-IsSafe n = show-All (λ c. is_safe c ≡ true) (λ d h. ground arith) n

trim_suffix-IsSafe : (s t : Text) → IsSafe s → IsSafe (trim_suffix s t)
trim_suffix-IsSafe s t h =
    elim (Bool-cases (leb (length t) (length s) && text_eq (drop (length s - length t) s) t)) [
      | inl y ↦ rw y (All-take _ (length s - length t) s h)
      | inr n ↦ rw n h
    ]

apk_ext-IsSafe : IsSafe apk_ext
apk_ext-IsSafe = (refl, (refl, (refl, (refl, tt))))

exe_ext-IsSafe : IsSafe exe_ext
exe_ext-IsSafe = (refl, (refl, (refl, (refl, tt))))

let_through :
    (ext e mime : Text) (x : UploadError)
    → IsSafe e
    → Returns (λ (m : Text). IsSafe ext) (if text_eq ext e then ok mime else err x)
let_through ext e mime x h = elim (Bool-cases (text_eq ext e)) [
  | inl y ↦ let same = (text_eq_iff ext e).0 y in rw (y, same) h
  | inr n ↦ rw n tt
]

-- The extensions that are let through.
mime_of-IsSafe :
    (platform ext : Text)
    → (text_eq platform android ≡ true) ⊎ (text_eq platform windows ≡ true)
    → Returns (λ (mime : Text). IsSafe ext) (mime_of platform ext)
unfolding mime_of
mime_of-IsSafe platform ext h = elim (Bool-cases (text_eq platform android)) [
  | inl y ↦ rw y (let_through ext apk_ext _ not_apk apk_ext-IsSafe)
  | inr n ↦ elim h [
    | inl y ↦ absurd (cc)
    | inr y ↦ rw (n, y) (let_through ext exe_ext _ not_exe exe_ext-IsSafe)
  ]
]

android-IsWord : IsWord android
unfolding android codes text_eq
android-IsWord = test-IsWord android refl refl

windows-IsWord : IsWord windows
unfolding windows codes text_eq
windows-IsWord = test-IsWord windows refl refl

platform-IsWord :
    (platform : Text)
    → (text_eq platform android ≡ true) ⊎ (text_eq platform windows ≡ true)
    → IsWord platform
platform-IsWord platform (inl y) =
    subst IsWord (sym ((text_eq_iff platform android).0 y)) android-IsWord
platform-IsWord platform (inr y) =
    subst IsWord (sym ((text_eq_iff platform windows).0 y)) windows-IsWord

with_dash : (s t : Text) → IsSafe s → IsSafe t → IsSafe (s ++ (b'-' ∷ t))
with_dash s t h k = All-append _ s (b'-' ∷ t) h (refl, k)

base_name-IsWord :
    (platform channel arch version ext : Text)
    → IsSafe platform
    → IsSafe channel
    → IsSafe arch
    → IsSafe version
    → IsSafe ext
    → IsWord (base_name platform channel arch version ext)
unfolding codes
base_name-IsWord platform channel arch version ext hp hc ha hv he =
    let rest = platform ++ (b'-' ∷ channel ++ (b'-' ∷ arch ++ (b'-' ∷ version ++ ext))) in
    let safe : IsSafe rest =
      with_dash platform _ hp
        (with_dash channel _ hc (with_dash arch _ ha (All-append _ version ext hv he))) in
    let whole : IsWord (codes "HSgram-" ++ rest) = (
      with_dash (codes "HSgram") rest (all_safe-IsSafe (codes "HSgram") refl) safe,
      plain-dash (codes "HSgram") rest,
    ) in
    subst IsWord (sym (sanitize_filename-safe b'H' (codes "Sgram-" ++ rest) whole)) whole

free_name-IsWord :
    (d : Disk) (unix : ℕ) (platform channel arch name ext : Text)
    → IsWord name
    → IsSafe ext
    → IsWord (free_name d unix platform channel arch name ext)
free_name-IsWord d unix platform channel arch name ext h k =
    elim (Bool-cases (exists d (join (platform ∷ channel ∷ arch ∷ name ∷ [])))) [
      | inl y ↦ rw y (
        with_dash (trim_suffix name ext) _ (trim_suffix-IsSafe name ext h.0)
            (All-append _ (show unix) ext (show-IsSafe unix) k),
        plain-dash (trim_suffix name ext) (show unix ++ ext),
      )
      | inr n ↦ rw n h
    ]

-- The file lies in the directory of its place, under a name that is one element of a path.
abbrev pub IsPlaced : Place → Prepared → Type 0
IsPlaced k p =
    IsWord p.filename
    × (p.storage_path ≡ join_slash (k.platform ∷ k.channel ∷ k.arch ∷ p.filename ∷ []))

prepare_named-IsPlaced :
    (d : Disk) (unix : ℕ) (k : Place) (version ext : Text) (m : Result UploadError Text)
    → IsWord k.platform
    → IsWord k.channel
    → IsWord k.arch
    → IsSafe version
    → Returns (λ (mime : Text). IsSafe ext) m
    → Returns (IsPlaced k) (prepare_named d unix k.platform k.channel k.arch version ext m)
prepare_named-IsPlaced d unix k version ext (ok mime) hp hc ha hv h =
    let named = base_name-IsWord k.platform k.channel k.arch version ext hp.0 hc.0 ha.0 hv h in
    let name = base_name k.platform k.channel k.arch version ext in
    let free = free_name-IsWord d unix k.platform k.channel k.arch name ext named h in
    elim (Bool-cases (is_empty name)) [
      | inl y ↦ rw y tt
      | inr n ↦ rw n (free, join-words k.platform k.channel k.arch _ hp hc ha free)
    ]
prepare_named-IsPlaced d unix k version ext (err e) hp hc ha hv h = tt
prepare_named-IsPlaced d unix k version ext fault hp hc ha hv h = tt

sanitized : (s t : Text) → IsWord s → or_text (sanitize_release_token s) t ≡ s
unfolding sanitize_release_token
sanitized [] t h = absurd (let no = h.1 in cc)
sanitized (c ∷ s) t h = rw (trim-safe (c ∷ s) h.0, rows_where-safe (c ∷ s) h.0) refl

-- Where the platform is Android or Windows, and the channel and the architecture are letters,
-- digits, dots, dashes and underscores, neither empty nor `.` nor `..`: the name that
-- prepareReleasePath makes is such a word, whatever the version and the uploaded file are called, and
-- the path is platform, channel, architecture and name, with slashes between them.
pub prepare_release_path-IsPlaced :
    (o : Outside) (d : Disk) (unix : ℕ) (k : Place) (version filename : Text)
    → (text_eq k.platform android ≡ true) ⊎ (text_eq k.platform windows ≡ true)
    → IsWord k.channel
    → IsWord k.arch
    → Returns (IsPlaced k) (prepare_release_path o d unix k version filename)
unfolding prepare_release_path sanitize_release_token
prepare_release_path-IsPlaced o d unix k version filename h hc ha =
    let v = sanitize_release_token version in
    elim (Bool-cases (is_empty v)) [
      | inl y ↦ rw y tt
      | inr n ↦
          rw (n, sanitized k.channel stable hc, sanitized k.arch universal ha)
            (prepare_named-IsPlaced d unix k v _ _ (platform-IsWord k.platform h) hc ha
              (rows_where-All is_safe (trim version))
              (mime_of-IsSafe k.platform (o.lower (ext filename)) h))
    ]
