-- ===== src/Lib.antt =====
-- A verification library for the VMLC backend: the rules by which exams open and close, candidates take
-- them and submit answers, results are ranked, rankings are published and summed up in a league table,
-- and candidates advance from stage to stage; who may log in and see what; and how the staff reaches
-- the candidates, by broadcasts and at the helpdesk.
--
-- The program is a Django application. Its state is a database, and each handler or service reads and
-- writes some tables, most of them in a transaction. Here a table is the list of its rows, in the order
-- in which the code reads them, and a handler is a function from tables to an answer and tables. Times
-- are arguments, numbers of microseconds; identifiers are numbers; scores are hundredths, and those of
-- suspicion billionths.
--
-- Prelude.antt            Shared names, lists, tables with their queries, integers, sorting, dicts, text.
-- Competition/Model.antt  The rows of competition/models.py and of the candidate of identity/models.py.
-- Competition/Ranking.antt      competition/services/ranking.py: RankingSnapshotGenerator, from the
--                               eligible candidates to the entries with their ranks.
-- Competition/Generation.antt   generate_and_save_ranking of the same file, as a whole.
-- Competition/Eligibility.antt  competition/services/eligibility.py: can_take_exam and
--                               can_view_leaderboard.
-- Competition/Snapshot.antt     RankingSnapshot of competition/models.py, its save, and
--                               publish_ranking_task of competition/tasks.py.
-- Competition/Leaderboard.antt  competition/services/leaderboard.py and LeagueLeaderboard.save.
-- Competition/Enrollment.antt   competition/services/enrollment.py.
-- Competition/Promotion.antt    competition/services/promotion.py: promote_candidates.
-- Competition/Removal.antt      The same file: elimination of absentees, disqualification and its reversal.
-- Vmlc/Model.antt         The rows of vmlc/models.py.
-- Vmlc/Exam.antt          The model Exam of vmlc/models.py: status, window, retract, save.
-- Vmlc/Attempt.antt       The views of vmlc/views/answer.py and vmlc/views/exam.py that move an attempt,
--                         and mark_exam_access_as_expired_task of vmlc/tasks.py; as steps in
--                         Vmlc/Attempt/Steps.antt.
-- Vmlc/Passcode.antt      vmlc/services/exam_access.py: the passcodes of an exam, their mails, and the
--                         login by one.
-- Vmlc/Proctoring.antt    vmlc/services/proctoring.py: scores and status; its operations are in
--                         Vmlc/Proctoring/Service.antt.
-- Identity/Roles.antt, Identity/Permissions.antt   identity/permissions.py: the hierarchy of the staff
--                         roles and the permission classes.
-- Identity/Otp.antt       core/utils/auth.py and identity/serializers/auth.py: one-time codes.
-- Comms/Model.antt        The rows of comms/models.py for broadcasts.
-- Comms/Phone.antt        comms/utils.py: phone numbers.
-- Comms/Delivery.antt     comms/services/notification.py: the loop of send_broadcast.
-- Comms/Broadcast.antt    send_broadcast as a whole, Broadcast.cancel of comms/models.py, and
--                         send_bulk_sms_task of comms/tasks.py.
-- Comms/Helpdesk.antt     The threads of comms/models.py, with the views of comms/views.py and the
--                         periodic tasks of comms/tasks.py that change them.
-- Core/Scoring.antt       compute_exam_results of core/utils/functions.py.
--
-- The parts meet in the tables: an attempt asks Eligibility and Exam, Ranking reads results and
-- enrollments, a ranking becomes a Snapshot, Leaderboard sums the entries of the active snapshots, and
-- Promotion reads the published snapshot or the latest leaderboard and moves the enrollments.
--
-- A passcode belongs to an attempt; the permission to see an entry of a ranking reads snapshots,
-- enrollments and attempts; posting at the helpdesk asks for a role.
--
-- Every function but one is a structural recursion. The runs of the SMS task that Celery starts,
-- sms_runs, use fuel: 13 is enough for the first run and the 12 retries that the task allows. Whether
-- Celery queues another run is a parameter, as are the answers of the SMS provider, whether a queue takes
-- a task, the codes and tokens that are drawn, and the strength of a password. A row that get() does not
-- find, a unique constraint and a None in arithmetic are values that stand for the exception. Float
-- arithmetic is not the program's own: the rounded percentage of a score, the rounded product of a
-- percentage cutoff, and the square root and the logarithm of proctoring are parameters, and a percentile
-- and an average of suspicion are fractions.
--
-- Not modelled: the notifications of the competition services, caches and messages over websockets,
-- since they do not change these tables; locks, since the handlers that take them run one after another;
-- column widths; the texts of mails and messages; the integrity score of proctoring; the escalation of
-- helpdesk threads; registration, profiles, reports and the views of the administration, which are forms
-- and queries; tokens of sessions and keys of the API, which come from libraries.
pub mod Prelude
pub mod Core
pub mod Vmlc
pub mod Competition
pub mod Comms
pub mod Identity
