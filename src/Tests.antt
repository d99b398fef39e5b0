-- ===== src/Tests.antt =====
-- Concrete versions of what the library takes as parameters, tests of the definitions on concrete
-- inputs, and the theorems at such inputs.
mod HttpSample
mod BstrSample
mod IoSample
mod InternalExamples
mod TunnelExamples
mod LosslessExamples
mod DecoderExamples
mod PartExamples
mod LogExamples
mod AuthoritySample
mod AuthorityExamples
mod OpensslExamples
mod StartExamples
mod ShutdownExamples
mod CertifiedExamples
mod BodyExamples
mod MainExamples
