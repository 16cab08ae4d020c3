-- ===== src/Tests/Sessions.antt =====
-- Examples for Session.
use ecosystem_complete.Prelude.{
  ◌≡◌, ◌≢◌, refl, ◌⊎◌, String, true, false, some, none, arith, eq_iff, find_where, exists_where,
  update_where, count_where, ◌+ℤ◌,
}
use ecosystem_complete.Database.{RefreshToken}
use ecosystem_complete.Runtime.{Env, World}
use ecosystem_complete.Runtime.Exec.{ok, err, is_failed}
use ecosystem_complete.Session.{refresh_reused}
use ecosystem_complete.Session.Rotate.{is_live, find_token, refresh, logout}
use ecosystem_complete.Session.Families.{live_in}
use ecosystem_complete.Session.Rotation.{rotated, refresh_atomic, refresh_twice, WasReuse}
use ecosystem_complete.Session.Logout.{logout_ends_session}
use ecosystem_complete.Session.Histories.{
  Reach, here, next, refreshes, IsSingle, IsDead, family_used, Reach-IsSingle, dead_family_forever,
}
use ecosystem_complete.Tests.{env, config, meta, world, tokens}

abbrev after_refresh : World
after_refresh = (refresh env config "t1" meta world).1

rotation : refresh env config "t1" meta world ≡ (ok tokens, after_refresh)
unfolding refresh find_where exists_where update_where ◌+ℤ◌
rotation = refl

t1_given : ◌≢◌ {A = String} "t1" ""
t1_given e = ground (arith, eq_iff "t1" "")

refresh_atomic_example :
    (after_refresh.db ≡ world.db)
    ⊎ ((row : RefreshToken) × (find_token "t1" world.db ≡ some row)
        × (((is_live row ≡ false)
              × WasReuse env config "t1" meta world (refresh env config "t1" meta world))
            ⊎ ((is_live row ≡ true) × (after_refresh.db ≡ rotated env config "t1" meta world row))))
refresh_atomic_example = refresh_atomic env config "t1" meta world

refresh_twice_example :
    let (r, w2) = refresh env config "t1" meta after_refresh in
    (row : RefreshToken) × (find_token "t1" world.db ≡ some row)
    × (((r ≡ err refresh_reused) × (live_in row.family w2.db ≡ 0))
        ⊎ ((is_failed r ≡ true) × (w2.db ≡ after_refresh.db)))
refresh_twice_example =
    refresh_twice env env config config "t1" meta meta world after_refresh tokens t1_given refl
      rotation

logout_ends_session_example :
    ((find_token "t1" world.db ≡ none)
      × ((logout env "t1" world).1.db ≡ world.db)
      × (((logout env "t1" world).0 ≡ ok tt) ⊎ (is_failed (logout env "t1" world).0 ≡ true)))
    ⊎ ((row : RefreshToken) × (find_token "t1" world.db ≡ some row)
        × ((((logout env "t1" world).0 ≡ ok tt)
              × (live_in row.family (logout env "t1" world).1.db ≡ 0))
            ⊎ ((is_failed (logout env "t1" world).0 ≡ true)
                × ((logout env "t1" world).1.db ≡ world.db))))
logout_ends_session_example = logout_ends_session env "t1" world t1_given

-- The dead family "f0", through a refresh of "f1".
IsDead-f0 : IsDead "f0" world.db
unfolding family_used live_in exists_where count_where
IsDead-f0 = (refl, refl)

one_refresh : Reach world after_refresh
one_refresh = next here (refreshes env config "t1" meta)

abbrev env3 : Env
env3 = record env { new_token = "t3" }

abbrev after_second : World
after_second = (refresh env3 config "t2" meta after_refresh).1

second_rotation :
    refresh env3 config "t2" meta after_refresh
    ≡ (ok (record tokens { refresh_token = "t3" }), after_second)
unfolding refresh find_where exists_where update_where ◌+ℤ◌
second_rotation = refl

dead_family_forever_example :
    (row : RefreshToken) × (find_token "t2" after_refresh.db ≡ some row) × (row.family ≢ "f0")
dead_family_forever_example =
    dead_family_forever "f0" env3 config "t2" meta (record tokens { refresh_token = "t3" })
      after_second one_refresh IsDead-f0 second_rotation

single : IsSingle world.db
unfolding live_in count_where
single f = ground (arith, eq_iff "f1" f, eq_iff "f0" f)

Reach-IsSingle_example : IsSingle after_refresh.db
Reach-IsSingle_example = Reach-IsSingle one_refresh single
