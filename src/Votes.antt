-- ===== src/Votes.antt =====
-- Votes: anonymous ballots, their tally, and its publication (the vote_*.py of server/app/services).
pub mod Rows
pub mod Encoding
pub mod Ballots
pub mod Submission
pub mod Settlement
pub mod Publishing
pub mod Results
pub mod OneVote
mod Tests
