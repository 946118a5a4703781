-- ===== src/Smtp.antt =====
-- The SMTP handlers, src/lightr/mail/smtp.py: what a session answers to EHLO, MAIL and RCPT, who
-- may send as whom, and what becomes of a message. The children have the parts.
pub mod Answers
pub mod Envelope
pub mod Submission
pub mod Parts
pub mod Outbound
pub mod Relaying
pub mod Delivery
pub mod Acceptance
pub mod Ownership
pub mod Spam
pub mod Recorded
pub mod Bounces
pub mod Envelopes
mod Examples
