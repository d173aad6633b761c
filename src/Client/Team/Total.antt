-- ===== src/Client/Team/Total.antt =====
-- The count of completed transactions of a worker, and how its loop ends.
use upcalls.Client.Team.{Team}
