-- ===== src/Chainstate/Obfuscation/Involution.antt =====
-- Deobfuscating what was obfuscated with the same key.
