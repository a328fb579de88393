-- ===== src/Term/Switches.antt =====
-- What the switches of util.cpp leave of the flags that others turned off.
