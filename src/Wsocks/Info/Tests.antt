-- ===== src/Wsocks/Info/Tests.antt =====
-- What src/bin.todo/wsocks.rs tells of one build.
use sosistab2_obfsws.Base.{◌≡◌, refl, Bool, false, ◌||◌, none, some, [], ◌∷◌}
use sosistab2_obfsws.Io.{Text, text_eq, codes}
use sosistab2_obfsws.Wsocks.Info.{
  Build, string, null, pushed, join, env_info, get, target_arch, target_feature, target_os,
  target_family, target_env, target_endian, target_pointer_width, target_vendor, target_has_atomic,
  panic,
}
use sosistab2_obfsws.Wsocks.Info.ReadsBack.{ReadsBack, env_info-ReadsBack}

abbrev either : Text → Text → Text → Bool
either a b v = text_eq a v || text_eq b v

-- A build with two atomics and one operating system, and no environment.
abbrev sample_build : Build
sample_build = record {
  cfg = λ key v. either (codes "64") (codes "linux") v || text_eq v (codes "ptr");
  flag = λ name. false;
  option_env = λ name. none;
}

atomics :
    get (env_info sample_build) (codes "cfg" ∷ codes "target_has_atomic" ∷ [])
    ≡ some (string (codes "64, ptr"))
unfolding env_info get pushed join
atomics = refl

no_commit :
    get (env_info sample_build) (codes "build" ∷ codes "git" ∷ codes "commit" ∷ []) ≡ some null
unfolding env_info get
no_commit = refl

env_info-ReadsBack_example :
    ReadsBack sample_build (env_info sample_build) (codes "target_arch") target_arch
    × ReadsBack sample_build (env_info sample_build) (codes "target_feature") target_feature
    × ReadsBack sample_build (env_info sample_build) (codes "target_os") target_os
    × ReadsBack sample_build (env_info sample_build) (codes "target_family") target_family
    × ReadsBack sample_build (env_info sample_build) (codes "target_env") target_env
    × ReadsBack sample_build (env_info sample_build) (codes "target_endian") target_endian
    × ReadsBack sample_build
        (env_info sample_build)
        (codes "target_pointer_width")
        target_pointer_width
    × ReadsBack sample_build (env_info sample_build) (codes "target_vendor") target_vendor
    × ReadsBack sample_build (env_info sample_build) (codes "target_has_atomic") target_has_atomic
    × ReadsBack sample_build (env_info sample_build) (codes "panic") panic
env_info-ReadsBack_example = env_info-ReadsBack sample_build
