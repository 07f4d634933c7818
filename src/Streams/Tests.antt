-- ===== src/Streams/Tests.antt =====
-- Reads of a stream whose first byte was read ahead (src/server/server.cpp).
use cfrp.Base.{List, [], ◌∷◌, ◌++◌}
use cfrp.Base.Text.{codes}
use cfrp.Streams.{new}
use cfrp.Streams.Sequences.{Wanted, exactly, at_most, reads, Delivered, reads_like_one}

abbrev wanted : List Wanted
wanted = exactly 3 ∷ at_most 2 5 ∷ []

reads_like_one_example :
    Delivered wanted
      (codes "G" ++ codes "ET / HTTP")
      (reads wanted (new (codes "ET / HTTP") (codes "G")))
reads_like_one_example = reads_like_one wanted (codes "G") (codes "ET / HTTP")
