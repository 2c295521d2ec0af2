-- ===== src/Wsocks/Info.antt =====
-- `cfg_info`, `build_info` and `env_info` of src/bin.todo/wsocks.rs: what the program tells of how it
-- was built.
pub mod ReadsBack
mod Tests
use sosistab2_obfsws.Base.{
  ℕ, Bool, true, false, Option, none, some, List, [], ◌∷◌, ◌++◌, map, if◌then◌else◌,
}
use sosistab2_obfsws.Io.{Text, text_eq, codes}

-- What the compiler decides: `cfg!(key="value")`, `cfg!(name)` and `option_env!`.
pub record Build : Type 0 where
  pub cfg : Text → Text → Bool
  pub flag : Text → Bool
  pub option_env : Text → Option Text

-- The values that `serde_json::json!` makes here.
mutual
  pub data Value : Type 0 where
    null : Value
    string : Text → Value
    boolean : Bool → Value
    object : Fields → Value

  pub data Fields : Type 0 where
    end : Fields
    field : Text → Value → Fields → Fields

-- One of the lists of `cfg_info`: the values that are pushed, each under its test, in order.
module _ (B : Build) (key : Text) where
  unfoldable pub pushed : List Text → List Text
  pushed [] = []
  pushed (v ∷ vs) = let rest = pushed vs in if B.cfg key v then v ∷ rest else rest

-- `join(", ")`
unfoldable pub join : List Text → Text
join [] = []
join (w ∷ []) = w
join (w ∷ (v ∷ ws)) = w ++ (codes ", " ++ join (v ∷ ws))

abbrev pub target_arch : List Text
target_arch =
    codes "x86"
    ∷ codes "x86_64"
    ∷ codes "mips"
    ∷ codes "powerpc"
    ∷ codes "powerpc64"
    ∷ codes "arm"
    ∷ codes "aarch64"
    ∷ []

abbrev pub target_feature : List Text
target_feature =
    codes "avx"
    ∷ codes "avx2"
    ∷ codes "crt-static"
    ∷ codes "rdrand"
    ∷ codes "sse"
    ∷ codes "sse2"
    ∷ codes "sse4.1"
    ∷ []

abbrev pub target_os : List Text
target_os =
    codes "linux"
    ∷ codes "windows"
    ∷ codes "macos"
    ∷ codes "android"
    ∷ codes "ios"
    ∷ codes "freebsd"
    ∷ codes "dragonfly"
    ∷ codes "openbsd"
    ∷ codes "none"
    ∷ []

abbrev pub target_family : List Text
target_family = codes "unix" ∷ codes "windows" ∷ codes "wasm" ∷ []

abbrev pub target_env : List Text
target_env = codes "gnu" ∷ codes "musl" ∷ codes "sgx" ∷ codes "msvc" ∷ []

abbrev pub target_endian : List Text
target_endian = codes "little" ∷ codes "big" ∷ []

abbrev pub target_pointer_width : List Text
target_pointer_width = codes "64" ∷ codes "32" ∷ codes "16" ∷ []

abbrev pub target_vendor : List Text
target_vendor = codes "pc" ∷ codes "apple" ∷ codes "fortanix" ∷ codes "unknown" ∷ []

abbrev pub target_has_atomic : List Text
target_has_atomic =
    codes "8" ∷ codes "16" ∷ codes "32" ∷ codes "64" ∷ codes "128" ∷ codes "ptr" ∷ []

abbrev pub panic : List Text
panic = codes "unwind" ∷ codes "abort" ∷ []

module _ (B : Build) where
  -- The text of one list.
  unfoldable pub shown : Text → List Text → Value
  shown key values = string (join (pushed B key values))

  unfoldable pub cfg_info : Value
  unfolding shown
  cfg_info = object (
      field (codes "target_arch") (shown (codes "target_arch") target_arch) (
        field (codes "target_feature") (shown (codes "target_feature") target_feature) (
          field (codes "target_os") (shown (codes "target_os") target_os) (
            field (codes "target_family") (shown (codes "target_family") target_family) (
              field (codes "target_env") (shown (codes "target_env") target_env) (
                field (codes "target_endian") (shown (codes "target_endian") target_endian) (
                  field (codes "target_pointer_width")
                    (shown (codes "target_pointer_width") target_pointer_width)
                    (field (codes "target_vendor") (shown (codes "target_vendor") target_vendor) (
                      field (codes "target_has_atomic")
                        (shown (codes "target_has_atomic") target_has_atomic)
                        (field (codes "panic") (shown (codes "panic") panic) (
                          field (codes "test") (boolean (B.flag (codes "test"))) (
                            field (codes "debug_assertions")
                              (boolean (B.flag (codes "debug_assertions")))
                              (field (codes "proc_macro") (boolean (B.flag (codes "proc_macro")))
                                end)))))))))))))

  -- `option_env!`, as `json!` takes it.
  abbrev pub env : Text → Value
  env name = elim (B.option_env name) [ none ↦ null | some text ↦ string text ]

  unfoldable pub build_info : Value
  build_info = object (
      field (codes "time") (env (codes "VERGEN_BUILD_TIMESTAMP")) (
        field (codes "git")
          (object (
            field (codes "commit") (env (codes "VERGEN_GIT_SHA"))
              (field (codes "branch") (env (codes "VERGEN_GIT_BRANCH")) end)))
          (field (codes "cargo")
            (object (
              field (codes "opt-level") (env (codes "VERGEN_CARGO_OPT_LEVEL")) (
                field (codes "features") (env (codes "VERGEN_CARGO_FEATURES"))
                  (field (codes "debug") (env (codes "VERGEN_CARGO_DEBUG")) end))))
            (field (codes "rustc")
              (object (
                field (codes "llvm_version") (env (codes "VERGEN_RUSTC_LLVM_VERSION")) (
                  field (codes "rustc_version") (env (codes "VERGEN_RUSTC_SEMVER")) (
                    field (codes "rustc_channel") (env (codes "VERGEN_RUSTC_CHANNEL")) (
                      field (codes "rustc_git_commit") (env (codes "VERGEN_RUSTC_COMMIT_HASH")) (
                        field (codes "host_triple") (env (codes "VERGEN_RUSTC_HOST_TRIPLE")) (
                          field (codes "target_triple") (env (codes "VERGEN_CARGO_TARGET_TRIPLE"))
                            end)))))))
              end))))

  unfoldable pub env_info : Value
  unfolding build_info cfg_info
  env_info = object (
      field (codes "build") build_info (
        field (codes "name") (string (codes "wsocks - web socks")) (
          field (codes "license") (env (codes "CARGO_PKG_LICENSE")) (
            field (codes "repo") (env (codes "CARGO_PKG_REPOSITORY")) (
              field (codes "version") (env (codes "CARGO_PKG_VERSION"))
                (field (codes "cfg") cfg_info end))))))

-- The value under a path of keys.
unfoldable mutual
  pub get : Value → List Text → Option Value
  get v [] = some v
  get (object fs) (k ∷ ks) = find fs k ks
  get _ (k ∷ ks) = none

  pub find : Fields → Text → List Text → Option Value
  find end k ks = none
  find (field j v fs) k ks =
      let deeper = get v ks in let rest = find fs k ks in if text_eq j k then deeper else rest
