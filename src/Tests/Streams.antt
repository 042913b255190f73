-- ===== src/Tests/Streams.antt =====
-- Registrations: calls on the loop.
use easy_reactor.Base.{◌==◌, if◌then◌else◌, refl, List, [], ◌∷◌, some, none}
use easy_reactor.Loop.{only_in, only_out, Ctl, ctl_add, ctl_mod, ctl_del, Mask}
use easy_reactor.Loop.Watch.{
  Epoll, IsMirrored, register_all, register_all-IsMirrored, adds, drops, removes,
}
use easy_reactor.Base.Table.{Table}
use easy_reactor.Tests.Fixtures.{quiet_loop}

-- The interest list that plain tables give.
abbrev watched : List Ctl → Table Mask
watched [] = λ k. none
watched (ctl_add fd m ∷ cs) = λ k. if fd == k then some m else watched cs k
watched (ctl_mod fd m ∷ cs) = λ k. if fd == k then some m else watched cs k
watched (ctl_del fd ∷ cs) = λ k. if fd == k then none else watched cs k

abbrev plain_epoll : Epoll
plain_epoll = record {
  watch = watched;
  start = λ k. refl;
  add = λ cs fd m e k. refl;
  change = λ cs fd m old e k. refl;
  remove = λ cs fd k. refl;
}

register_all-IsMirrored_example : IsMirrored plain_epoll (
    register_all quiet_loop
      (adds 9 2 only_in 77 ∷ adds 9 3 only_out 77 ∷ drops 9 only_in ∷ removes 9 ∷ []))
register_all-IsMirrored_example =
    register_all-IsMirrored plain_epoll quiet_loop
      (adds 9 2 only_in 77 ∷ adds 9 3 only_out 77 ∷ drops 9 only_in ∷ removes 9 ∷ [])
      (record { watched = λ k. refl; listed = λ k. refl })
