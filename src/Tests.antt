-- ===== src/Tests.antt =====
-- Runs at concrete inputs.
mod Paths
mod Preprocessing
mod Dips
mod CreateDip
mod Poststorage
mod Service
mod Packages
mod Mets
mod ParseMetadata
mod Polling
mod Requests
mod Formats
mod Amss
mod Identifiers
mod Manifest
mod Structure
mod Premis
mod Actapro
