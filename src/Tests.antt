-- ===== src/Tests.antt =====
-- The theorems applied at concrete inputs.
mod Validate
mod StrBuilder
mod Buffer
mod Param
mod Element
mod Prival
mod Entry
mod Life
mod Targets
mod Formatter
mod Cache
mod Chain
mod Dispatch
