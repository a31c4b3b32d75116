-- ===== src/Onboarding.antt =====
-- The inventory of physical devices: app/services/onboarding_service.py (`OnboardingService`) and
-- app/repositories/physical_device_repository.py.
pub mod Service
pub mod Binding
pub mod Claims
mod Tests
