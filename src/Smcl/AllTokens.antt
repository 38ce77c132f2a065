-- ===== src/Smcl/AllTokens.antt =====
-- The rounds that `load` gives the lexer are enough.
