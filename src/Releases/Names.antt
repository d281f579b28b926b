-- ===== src/Releases/Names.antt =====
-- The words for platform, channel, architecture and update level, and the normalisation of what a
-- request has for them (backend/internal/store/releases.go).
use hsgram_admin.Prelude.{Bool, false, ◌||◌, Option, none, some, List, [], ◌∷◌, if◌then◌else◌}
use hsgram_admin.Prelude.Text.{Text, codes, trim, text_eq}

unfoldable pub android : Text
unfolding codes
android = codes "android"

unfoldable pub windows : Text
unfolding codes
windows = codes "windows"

unfoldable pub stable : Text
unfolding codes
stable = codes "stable"

unfoldable pub universal : Text
unfolding codes
universal = codes "universal"

unfoldable pub optional : Text
unfolding codes
optional = codes "optional"

unfoldable pub required : Text
unfolding codes
required = codes "required"

-- One `case` of a `switch` on a string: its labels, and the word that is returned.
pub record Case : Type 0 where
  pub labels : List Text
  pub word : Text

abbrev pub is_label : Text → List Text → Bool
is_label s [] = false
is_label s (l ∷ ls) = text_eq s l || is_label s ls

-- The first case with the label; `none` is the error of the `default`.
abbrev pub pick : Text → List Case → Option Text
pick s [] = none
pick s (c ∷ cs) = if is_label s c.labels then some c.word else pick s cs

unfoldable pub platforms : List Case
unfolding codes
platforms =
    record { labels = codes "android" ∷ []; word = codes "android" }
    ∷ record {
      labels = codes "windows" ∷ codes "pc" ∷ codes "desktop" ∷ codes "win" ∷ [];
      word = codes "windows";
    }
    ∷ []

unfoldable pub channels : List Case
unfolding codes
channels =
    record { labels = [] ∷ codes "stable" ∷ []; word = codes "stable" }
    ∷ record { labels = codes "beta" ∷ []; word = codes "beta" }
    ∷ record { labels = codes "internal" ∷ []; word = codes "internal" }
    ∷ []

unfoldable pub update_levels : List Case
unfolding codes
update_levels =
    record { labels = [] ∷ codes "optional" ∷ []; word = codes "optional" }
    ∷ record { labels = codes "recommended" ∷ codes "recommend" ∷ []; word = codes "recommended" }
    ∷ record {
      labels = codes "required" ∷ codes "force" ∷ codes "forced" ∷ [];
      word = codes "required";
    }
    ∷ []

unfoldable pub any_arch : Case
unfolding codes
any_arch = record { labels = [] ∷ codes "universal" ∷ []; word = codes "universal" }

unfoldable pub android_archs : List Case
unfolding codes any_arch
android_archs =
    any_arch
    ∷ record { labels = codes "arm64-v8a" ∷ codes "arm64" ∷ []; word = codes "arm64-v8a" }
    ∷ record {
      labels = codes "armeabi-v7a" ∷ codes "armv7" ∷ codes "armeabi" ∷ [];
      word = codes "armeabi-v7a";
    }
    ∷ record { labels = codes "x86_64" ∷ codes "x64" ∷ []; word = codes "x86_64" }
    ∷ []

unfoldable pub windows_archs : List Case
unfolding codes any_arch
windows_archs =
    any_arch
    ∷ record {
      labels = codes "win-x64" ∷ codes "x64" ∷ codes "x86_64" ∷ codes "amd64" ∷ [];
      word = codes "win-x64";
    }
    ∷ record {
      labels = codes "win-arm64" ∷ codes "arm64" ∷ codes "aarch64" ∷ [];
      word = codes "win-arm64";
    }
    ∷ []

-- `switch platform` in NormalizeReleaseArch, on a normalised platform.
abbrev pub archs_of : Text → List Case
archs_of platform =
    if text_eq platform android
    then android_archs
    else if text_eq platform windows
    then windows_archs
    else any_arch ∷ []

-- `lower` is `strings.ToLower`.
module _ (lower : Text → Text) where
  unfoldable pub normalize_platform : Text → Option Text
  normalize_platform platform = pick (lower (trim platform)) platforms

  unfoldable pub normalize_channel : Text → Option Text
  normalize_channel channel = pick (lower (trim channel)) channels

  unfoldable pub normalize_update_level : Text → Option Text
  normalize_update_level level = pick (lower (trim level)) update_levels

  abbrev pub arch_of_platform : Option Text → Text → Option Text
  arch_of_platform none arch = none
  arch_of_platform (some platform) arch = pick (lower (trim arch)) (archs_of platform)

  -- Both errors are `none`.
  unfoldable pub normalize_arch : Text → Text → Option Text
  unfolding normalize_platform
  normalize_arch platform arch = arch_of_platform (normalize_platform platform) arch
