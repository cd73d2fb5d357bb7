-- ===== src/Discord.antt =====
-- packages/discord-transport: what the relay sends to Discord.
pub mod Text
