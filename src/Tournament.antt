-- ===== src/Tournament.antt =====
-- The tournaments: src/config/tournaments.config.ts and the parts of
-- src/modules/tournaments/tournament-director.service.ts that decide.
pub mod Config
pub mod State
mod Prizes
mod Levels
mod Barrier
mod Busts
mod Balancing
mod Seeding
mod Round
mod Stranded
mod Tests
