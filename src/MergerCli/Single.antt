-- ===== src/MergerCli/Single.antt =====
-- The loop of pwned-merger-cli.cpp when it takes fewer than two files at once.
