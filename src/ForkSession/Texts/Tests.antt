-- ===== src/ForkSession/Texts/Tests.antt =====
-- Runs of the texts of core/src/fork_session.cpp.
use mod_audio_fork.Common.{[], ◌∷◌, codes, arith}
use mod_audio_fork.SessionState.{reconnecting}
use mod_audio_fork.ForkSession.{ForkSession}
use mod_audio_fork.ForkSession.Samples.{session, environment}
use mod_audio_fork.ForkSession.Texts.{deliver_text}
use mod_audio_fork.ForkSession.Texts.Account.{Accounts, deliver_text-Accounts}

-- Reconnecting, with two texts in the queue.
abbrev waiting : ForkSession
waiting = record session { state = reconnecting; pending_texts = codes "a" ∷ codes "b" ∷ [] }

deliver_text-Accounts_example :
    Accounts environment 1 waiting (deliver_text environment (codes "c") waiting)
deliver_text-Accounts_example = deliver_text-Accounts environment (codes "c") waiting (omega arith)
