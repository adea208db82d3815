-- ===== src/Examples/Commands.antt =====
-- The theorems on the choice of a command and its mark at node 1 of the pair.
