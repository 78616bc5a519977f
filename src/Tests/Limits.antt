-- ===== src/Tests/Limits.antt =====
-- Requests at the limit of instances.
use cf_redis_broker.Base.{◌≤◌, refl, List, [], ◌∷◌, All, arith}
use cf_redis_broker.Os.Names.{name_count}
use cf_redis_broker.Os.Files.{names_in}
use cf_redis_broker.Os.Paths.{same, join}
use cf_redis_broker.Redis.Repository.Crowding.{crowd}
use cf_redis_broker.Cmd.Limited.{
  Request, to_provision, to_deprovision, IsNamed, IsTidy, answer_all, crowd-answer_all,
}
use cf_redis_broker.Tests.Requests.{broker}
use cf_redis_broker.Tests.Keeping.{repo-AreApart, one_IsName}
use cf_redis_broker.Tests.Data.{config, repo, empty_disk, free_port, new_password, controller}

tidy : IsTidy free_port new_password controller repo
tidy = record {
  ports = λ w. omega arith;
  passwords = λ w. omega arith;
  starts = λ i c d l timeout w. omega arith;
  kills = λ i w. omega arith;
}

abbrev requests : List Request
requests = to_provision "one" "plan" ∷ to_provision "two" "plan" ∷ to_deprovision "one" ∷ []

requests-IsNamed : All IsNamed requests
requests-IsNamed = (
  one_IsName,
  (record { one = refl; not_empty = refl; not_dot = refl; not_dots = refl }, (one_IsName, tt)),
)

none_yet : crowd repo empty_disk ≤ 1
unfolding name_count names_in same join
none_yet = omega arith

crowd-answer_all_example : crowd repo (answer_all broker requests empty_disk) ≤ 1
crowd-answer_all_example =
    crowd-answer_all free_port new_password controller config repo tidy repo-AreApart 1 refl
      requests empty_disk requests-IsNamed none_yet
