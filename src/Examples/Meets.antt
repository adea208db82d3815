-- ===== src/Examples/Meets.antt =====
-- Nodes 1 and 2 of the pair meet: each has a command that the other lacks.
use distadm.Prelude.{ℕ, ◌≤◌, ◌≡◌, refl, true, List, [], ◌∷◌, max, arith}
use distadm.Matrix.{find, node_offset, index_from}
use distadm.Matrix.Cells.{cell}
use distadm.Messages.{Body, Msg, has_msg, is_id}
use distadm.Core.{Core, my_row, my_cell}
use distadm.Core.Pending.{HoldsPending}
use distadm.Core.Running.{IsRunning}
use distadm.Net.{CoreNet}
use distadm.Session.{Ended, Meeting, client_main, session}
use distadm.Session.Learns.{Faces}
use distadm.Session.Knows.{Ready, Met, client_main-Met}
use distadm.Session.Taking.{lack}
use distadm.Session.Agrees.{session-agreed}
use distadm.Examples.{node, pair-IsSquare, msg, core, waiting}
use distadm.Examples.Runs.{core-IsRunning}

abbrev pub theirs : List Msg
theirs = msg 2 1 Body.dellog ∷ msg 2 2 Body.dellog ∷ msg 2 3 Body.dellog ∷ []

abbrev pub second_core : Core
second_core = record (core theirs) { my_id = 2 }

second-HoldsPending : HoldsPending second_core
unfolding my_cell my_row find node_offset index_from has_msg is_id
second-HoldsPending a k h l = ground arith

second-IsRunning : IsRunning second_core
unfolding find
second-IsRunning = record {
  sound = record {
    square = pair-IsSquare;
    in_range = (omega arith, (omega arith, (omega arith, tt)));
    pending = second-HoldsPending;
  };
  mine = (node (2 ∷ 4 ∷ []) 1, refl);
}

first-Faces : Faces (core waiting) second_core
unfolding cell my_cell my_row find node_offset index_from has_msg is_id
first-Faces = record {
  same_ids = refl;
  apart = λ e. omega (arith, e);
  view = λ a. ground arith;
  seen = λ a. ground arith;
  offers = λ a k low high. ground arith;
}

second-Faces : Faces second_core (core waiting)
unfolding cell my_cell my_row find node_offset index_from has_msg is_id
second-Faces = record {
  same_ids = refl;
  apart = λ e. omega (arith, e);
  view = λ a. ground arith;
  seen = λ a. ground arith;
  offers = λ a k low high. ground arith;
}

abbrev pub net : Core → CoreNet
net c = record { core = c; ips = []; downloading_msgs = [] }

lacks_three : lack (my_row second_core) (my_row (core waiting)) ≡ 3
unfolding lack my_row find
lacks_three = refl

session-agreed_example :
    (first : ℕ) × (second : ℕ) × (third : ℕ) × (c' : CoreNet) × (s' : CoreNet) × (session first
        second third
        (λ m. true)
        (net (core waiting))
        (net second_core)
      ≡ Meeting.agreed c' s')
    × Ready c'
    × Ready s'
    × ((a : ℕ) → max (my_cell (core waiting) a) (my_cell second_core a) ≤ my_cell s'.core a)
    × ((a : ℕ) → my_cell s'.core a ≤ my_cell c'.core a)
session-agreed_example =
    session-agreed (λ m. true) (net (core waiting)) (net second_core)
      (record { running = core-IsRunning; node = refl; works = refl; idle = refl })
      (record { running = second-IsRunning; node = refl; works = refl; idle = refl }) first-Faces
      second-Faces (λ m. refl)

client_main-Met_example :
    (c' : CoreNet) × (client_main 4 (λ m. true) (net second_core) 2 (net (core waiting))
      ≡ Ended.finished c')
    × Met (net second_core) (net (core waiting)) c'
client_main-Met_example =
    client_main-Met 4 (λ m. true) (net second_core) (net (core waiting)) second-IsRunning
      (record { running = core-IsRunning; node = refl; works = refl; idle = refl }) first-Faces
      second-Faces (λ m. refl) (omega (arith, lacks_three))
